-- ===== src/Bits.antt =====
-- Laws of `|`, `&` and `^` at variables, which the hash functions and the UTF-8 encoder rely on.
mod Digits
mod Xor
mod XorParts
mod Fields
mod Rotate
pub use Digits.{bit_or_digit, bit_and_digit, bit_xor_digit}
pub use Fields.*
unfoldable pub use Rotate.{rotl}
pub use Rotate.*
pub use Xor.*
pub use XorParts.*
