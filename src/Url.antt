-- ===== src/Url.antt =====
-- The URL parsers: include/client/Parser/Urlparser.hpp and lib/parser_lib/urlparser_lib.cc.
-- A `const char*` into the text is a position in it. The pointer may be read from 0 up to `size()`,
-- where the terminator stands; past that a read is `out_of_bounds`.
pub mod Safety
pub mod Basic
pub mod Params
pub mod Query
