-- ===== src/P2p.antt =====
-- src/p2p/: the connections to other nodes.
pub mod Tor
pub mod Server
pub mod Status
pub mod Connection
pub mod Broadcast
pub mod Dispatch
pub mod MessageStream
pub mod Bootstrap
pub mod KeepAlive
mod Tests
pub mod Peers
