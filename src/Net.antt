-- ===== src/Net.antt =====
-- kvstore/net: the commands that clients and servers exchange.
pub mod Commands
pub mod Wire
pub mod Messages
pub mod Connection
