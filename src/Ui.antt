-- ===== src/Ui.antt =====
-- crates/ui: what the console does in the browser, without its rendering.
pub mod Transfer
pub mod Zone
pub mod Links
pub mod Dialogs
