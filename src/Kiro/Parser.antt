-- ===== src/Kiro/Parser.antt =====
-- src/kiro/parser/: the AWS Event Stream decoder.
pub mod Error
pub mod Bytes
pub mod Utf8
pub mod Header
pub mod Frame
pub mod Decoder
