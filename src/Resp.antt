-- ===== src/Resp.antt =====
-- The RESP protocol: the second part of ext/um/um_io.c, which writes Ruby objects to a buffer and
-- reads them from a stream.
pub mod Value
pub mod Number
pub mod Buffer
pub mod Encode
pub mod Decode
pub mod Digits
pub mod Text
pub mod Overflow
pub mod Line
pub mod RoundTrip
pub mod Shared
pub mod Whole
pub mod Tests
