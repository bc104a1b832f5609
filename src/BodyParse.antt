-- ===== src/BodyParse.antt =====
-- daemon/internal/bodyparse/bodyparse.go: what is recognised in the bodies of requests and
-- responses. One module for each format.
pub mod Varint
pub mod Protobuf
pub mod Sse
pub mod Formats
pub mod Parse
mod Examples
