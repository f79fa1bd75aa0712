-- ===== src/Memory.antt =====
-- Byte-addressed memory as the C programs use it: `memcpy` into and out of it, little-endian
-- words, and C strings. An access outside of the object is undefined in C; here it is `none`.
mod Words
mod Laws
unfoldable pub use Words.*
pub use Laws.*
pub mod Decimal
pub mod Atoi
