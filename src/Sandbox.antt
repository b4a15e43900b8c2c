-- ===== src/Sandbox.antt =====
-- src/sandbox/: what the server keeps of the sandboxes that it uses.
pub mod Sticky
