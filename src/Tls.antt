-- ===== src/Tls.antt =====
-- Challenge4/tls.c: thread local storage in pages that clones share until they are written.
pub mod Memory
pub mod Types
pub mod Sizes
pub mod Table
pub mod Pages
pub mod Transfer
pub mod Calls
pub mod Refs
pub mod Invariant
pub mod Lookup
pub mod Bytes
pub mod Copy
pub mod Loops
pub mod Writing
pub mod ReadLoop
pub mod Reading
pub mod Entry
pub mod Sharing
pub mod RoundTrip
pub mod Creation
pub mod Allocation
