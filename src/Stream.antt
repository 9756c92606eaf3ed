-- ===== src/Stream.antt =====
-- The stream layer, ext/um/um_io.c: reading from a list of segments that is filled as completions
-- come in.
pub mod State
pub mod Results
pub mod Fetch
pub mod Consume
pub mod Read
pub mod Content
pub mod Copy
pub mod Exact
pub mod Search
pub mod Cr
pub mod Line
pub mod Each
pub mod Tests
