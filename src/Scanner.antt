-- ===== src/Scanner.antt =====
-- src/scanner.rs: which paths a scan leaves out.
pub mod Exclude
