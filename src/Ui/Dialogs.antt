-- ===== src/Ui/Dialogs.antt =====
-- crates/ui/src/islands/{create_bucket_modal,confirm_modal,slide_over}.rs: the dialogs of the console.
-- A handler that spawns a request is two definitions: what it does at once, and what the answer
-- does. An answer also tells whether the page is loaded again.
pub mod Creating
pub mod Confirming
pub mod Panel
