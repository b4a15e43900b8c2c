-- ===== src/Sessions.antt =====
-- src/sessions/ and src/persistence/page.js: the lists that are read page by page, and what a session said.
pub mod Page
pub mod Listing
pub mod Transcript
