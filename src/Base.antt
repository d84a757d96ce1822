-- ===== src/Base.antt =====
-- Names that the other modules share.
pub mod Bits
pub mod Lists
pub mod Mem
pub mod Tests
pub mod Words
