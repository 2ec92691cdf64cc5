-- ===== src/KeyFile.antt =====
-- src/core/key_file_reader.cpp, in parts: the UTF-8 check, the escapes of values, the names of
-- keys and groups, and the loop over the lines.
pub mod Utf8
pub mod Values
pub mod Names
pub mod Reader
