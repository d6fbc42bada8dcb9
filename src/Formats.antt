-- ===== src/Formats.antt =====
-- src/formats: what a reply of Redis becomes, and what a WebSocket message is read as.
pub mod Common
pub mod Send
pub mod Promise
pub mod Answer
pub mod Extract
pub mod Raw
pub mod RawSize
pub mod Custom
pub mod Msgpack
pub mod MsgpackValue
pub mod MsgpackReply
pub mod Json
pub mod JsonStreams
pub mod JsonReply
pub mod JsonLaws
pub mod JsonHash
pub mod Replies
