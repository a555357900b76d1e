-- ===== src/Tests.antt =====
-- Examples of the theorems at concrete inputs, with the inputs they share.
pub mod Library
mod Colors
mod Download
mod Files
mod Network
mod Server
mod Settings
mod Values
