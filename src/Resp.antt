-- ===== src/Resp.antt =====
-- src/resp.c and src/resp.h: the RESP2 request parser and the reply serializers.
pub mod Outcome
pub mod Number
pub mod Bulk
pub mod Inline
pub mod Request
pub mod Replies
pub mod Emission
pub mod Reply
pub mod Plain
pub mod Decode
pub mod Streams
pub mod Reading
pub mod Stable
pub mod Splitting
pub mod Lines
pub mod Frames
pub mod Lengths
pub mod RoundTrip
pub mod Verdicts
mod Tests
