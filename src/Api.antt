-- ===== src/Api.antt =====
-- src/api/: the answers to queries. A query runs on a copy of the offer book and on the locked
-- cache of trades, which are arguments here.
pub mod Scalars
pub mod BtcOffer
pub mod Offers
pub mod Trades
pub mod Fields
pub mod Server
mod Tests
