-- ===== src/Lib.antt =====
-- luarunner runs Lua scripts from Go. Around the Lua interpreter the repository carries C code of
-- its own: a JSON encoder and decoder (lua_cjson.c) over a growing byte buffer (strbuf.c)
-- and conversions of numbers (fpconv.c), hash functions that scripts can call (hashfn.c,
-- murmur3.c, crc32.c, lua_ext.c), and documents of the yyjson library as userdata
-- (lua_yyjson.c). This library models these parts.
--
-- Parts and files:
-- - Base: results, integers of fixed width, lists and tests that the other modules share. A
--   result is `ok`, `die` (the process ends with a message), `undefined` (what C leaves
--   undefined: a write or read outside a block, an `int` that overflows), `spent` (fuel) or `raise`
--   (`luaL_error`, and whether the buffer was freed before).
-- - Bits: laws of the bit operations, and rotations at any width.
-- - Crc32 (crc32.c): `step` is the body of the loop of `xcrc32`, Crc32/Table its table.
--   Crc32/Bitwise is the independent description: long division by the polynomial, bit by bit.
-- - HashFn (hashfn.c, hashfn.h): Mix has `mix` and `final`; HashFn has `hash_bytes` and
--   `hash_bytes_extended` with both byte orders (`Endian`) and both alignments (a flag), and
--   Keys has the entry points for hash tables.
-- - Murmur3 (murmur3.c): `murmur_x86_32`, `murmur_x86_128` and `murmur_x64_128` are the functions
--   MurmurHash3_x86_32 and so on, each with its loop (`blocks…`), its switch (`tail…`) and its
--   finalization; Scramble has `fmix32`, `fmix64` and the rotations.
-- - Strbuf (strbuf.c, strbuf.h): a buffer is its block, size, length, increment and counters; the
--   allocator of the C library is the parameter `Allocator`, with the laws of malloc and realloc.
--   Format has the formatted output, over `vsnprintf`, and Release the end of a buffer.
-- - Lua: Lua's values. A table is the list of its entries in the order of `lua_next`; `rawset` and
--   `rawgeti` stand for what the manual says of the functions of the same name.
-- - Fpconv (fpconv.c, fpconv.h): numbers in text. `strtod` and `snprintf` are the parameter `Libc`.
-- - Cjson/Config: `json_config_t` and the functions that read and change it. Config/Configured is
--   the invariant, Config/Settings its preservation, Config/Reached the states that calls reach.
-- - Cjson/Tokens, Cjson/Decode: `json_next_token`, the parser, `json_decode`.
-- - Cjson/Encode: `lua_array_length`, `json_append_data` and its parts, `json_encode`.
-- - Cjson/Protected: `json_protect_conversion`, over `lua_pcall`, and the end of a configuration.
-- - Cjson/Document: the abstract documents and their text, against which both directions are
--   stated. Tokens, Numbers, Steps, Brackets and Reading run the parser over the pieces of a
--   text, Text and Decoding put `json_decode` together; Writable, Tables, Pieces, Frames and
--   Written do this for the encoder, Distinct compares the tables, and Encoding joins both
--   directions.
-- - Cjson/Ends: what holds of the decoder, the encoder and `lua_array_length` on every input, with the
--   predicate `Ends` on results; each module of it is about one layer of the code.
-- - Cjson (lua_cjson.c), strings: Escapes has the tables char2escape and escape2char, Utf8 and Unicode
--   the decoding of escapes, Strings `json_append_string` and `json_next_string_token`, which
--   use the buffer. Quote says what is written, Unquote that it is read back.
-- - Yyjson (lua_yyjson.c): the functions of the yyjson library are the parameter `Yyjson`, what they
--   change is its `Memory`, and what the library documents of allocation is `Lifetimes`; where it
--   could give NULL for want of memory, the parameter gives a value. Nodes has the userdata and
--   the functions that Lua calls, Values the conversion of Lua's values and what is stored, World
--   the calls, metamethods and collections, in any order but for uses of freed documents.
--   Ownership, Quiet, Parts and Stored are about actions that leave the documents as they are,
--   Grows and Lifetime about what each step does to them, Reached about every state. Contents is
--   what the library documents of the values in a document, ReadBack and RoundTrip what is read of
--   a value that was stored.
-- - LuaExt (lua_ext.c): the hashes as functions of Lua.
--
-- Bounds and fuel: `rounds` gets the number of bytes as fuel, and each round takes twelve;
-- `grow` gets one more than the requested size, and each round enlarges the size; the loop over
-- a JSON string gets the length of the memory that is read, and each round moves on in it;
-- `json_process_value` gets this length too, and a document's text is at least as long as the
-- document has values; `fmt_loop` gets two rounds, after which the code gives up;
-- `json_append_data` gets one more than `encode_max_depth`. A
-- `size_t` and the hashes wrap at their widths; an `int` that overflows is undefined. The length
-- of a key of a hash is an `int` in the code, so that the hash functions stand for the code on
-- keys of fewer than 2 ^ 31 bytes.
--
-- A table of Lua is a finite tree: one that contains itself, which `json_encode` refuses for its
-- depth and on which `lua_yyjson_val` recurses without bound, is not modelled. A run of lua_yyjson.c
-- is one in which no node is used after its document was freed, and in which `__gc` is called by
-- the collector alone.
--
-- Not modelled: the debug output of strbuf.c; in lua_cjson.c the registration with Lua, what
-- stands under DISABLE_INVALID_NUMBERS, and the state of a kept buffer after an error;
-- lua_init_extensions in lua_ext.c; the glue to Go (luarunner.go); and the yyjson library, which
-- is not part of the repository.
pub mod Base
pub mod Bits
pub mod Crc32
pub mod HashFn
pub mod Murmur3
pub mod Lua
pub mod Fpconv
pub mod Strbuf
pub mod Cjson
pub mod Yyjson
pub mod LuaExt
