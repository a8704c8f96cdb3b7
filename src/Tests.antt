-- ===== src/Tests.antt =====
-- Runs at concrete inputs, and the theorems applied to them.
pub mod Common
pub mod Codecs
pub mod Structs
pub mod Client
pub mod Store
pub mod Server
pub mod Sharded
pub mod Queue
pub mod Dmalloc
pub mod Weensyos
pub mod Text
pub mod Processes
pub mod Wire
