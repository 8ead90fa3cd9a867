-- ===== src/Examples.antt =====
-- Concrete hosts, and the theorems at work on them.
mod Hosts
mod Keys
mod Objects
mod Listings
mod Requests
mod Uploads
mod Dates
mod Web
mod Console
mod Browser
mod Runs
mod Startup
mod Aborts
mod Buckets
mod Links
mod Uploading
mod Dialogs
