-- ===== src/Cjson.antt =====
-- lua_cjson.c: the JSON encoder and decoder.
pub mod Escapes
pub mod Utf8
pub mod Encoding
pub mod Unicode
pub mod Strings
pub mod Quote
pub mod Entries
pub mod Unquote
pub mod Config
pub mod Tokens
pub mod Decode
pub mod Encode
pub mod Document
pub mod Ends
mod Protected
mod Tests
