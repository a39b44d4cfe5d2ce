-- ===== src/Tls/Copy.antt =====
-- Challenge4/tls.c: a page that is copied before it is written.
pub mod Bytes
pub mod Table
pub mod Result
