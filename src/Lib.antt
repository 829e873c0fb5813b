-- ===== src/Lib.antt =====
-- risq: a headless node of the Bisq trading network. It keeps the open offers and the trades that the
-- network announces, and answers questions about them.
--
-- The parts that are modelled, and their files:
--   Amount        src/domain/amount.rs: fixed-point numbers; u64 and u32 wrap around as in a release
--                 build. Scale is about with_precision, Compare about ==, Ord and +=, Product about *,
--                 Format about format.
--   Currency      src/domain/currency.rs: the table of currencies and its look-ups. Types has the
--                 types, TableA and TableB the entries.
--   Market        src/domain/market.rs: the table of markets, built from pairs of currency codes.
--                 Facts says what holds of both tables.
--   Hash          src/bisq/hash.rs: the keys of offers and trades, as lists of bytes.
--   F64           the operations on floating point that the program uses, a parameter.
--   Offer         src/domain/offer/open_offer.rs, and PriceData of src/domain/price_feed.rs.
--   OfferBook     src/domain/offer/offer_book.rs and message.rs: an actor. Its handlers take the
--                 clock's reading and the state, and return the new state with the reply; run is its
--                 mailbox. Invariant is about its well-formed states, View is the abstract specification
--                 with the refinement, Sequence is about replies and sequence numbers.
--   PriceFeed     src/domain/price_feed.rs: the reading of prices and the update of the map of prices,
--                 which the offer book asks for. Order is about what an update keeps; Nodes is the actor,
--                 with the node that it asks.
--   Payload       src/bisq/payload.rs and payload/kind.rs: what a peer signs and what it is hashed to.
--                 Types and Message are the messages of src/generated/io.bisq.protobuffer.rs; Verify is
--                 about the checks of signatures.
--   Convert       src/daemon/convert.rs: offers and trades from messages. Keeps is about what is kept,
--                 Panics about panics.
--   DataRouter    src/daemon/data_router.rs: an actor. State is its state and what it sends, Storage
--                 and Persistable route the two kinds of data, and handle is its handler. Order is about
--                 sequence numbers, Frame and Induct are an induction principle for the handler, which
--                 Rising, with Keeps, and Authentic apply; Panics, with Collect, is about its panics.
--                 Delivery joins the router to the offer book and the statistics by a queue, and Synced
--                 is about the whole.
--   Statistics    src/domain/statistics.rs and src/domain/statistics/: Trade and History are the
--                 trades in the order of time, Cache the state behind the lock,
--                 Queries what it is asked, Interval the periods of
--                 the calendar, Buckets the loop over trades and periods that Hloc and Volume share;
--                 the children Laws and Chart of Buckets,
--                 Range and Candles of Hloc, Count and Total of Volume are about what the loop gives.
--                 Floor has the laws of the calendar, Near is about the floor of a time, Windows about
--                 the periods; half hours and half days, for which the floor can panic, are left out there.
--                 Ticker is the last day of each market; its children Loops and Markets are about what
--                 it says of one market, and Prices about its prices.
--   Capability    src/bisq/constants.rs: capabilities, the reasons to close a connection, the price nodes.
--   P2p           src/p2p/: Status is src/p2p/status.rs; Peers is the actor of src/p2p/peers.rs. Its
--                 handlers, its timer and the futures that come back to it are the steps of an
--                 Event; what it sends is a list in its state. State, Connections and
--                 Report have the handlers' parts. Invariant is about its three maps,
--                 Panics about the panics of its steps, Consolidate about its timer. MessageStream is
--                 src/p2p/connection/message_stream.rs, messages from the bytes of a socket: Output says
--                 byte by byte what they are, Reads, Buffer, Polls and Ends are about a poll. Connection is
--                 the actor of src/p2p/connection.rs, with Responses about its requests, Writer for what it
--                 writes, and Wire about what the stream of the other side makes of it. Dispatch is
--                 src/p2p/dispatch.rs, Broadcast src/p2p/broadcast.rs with Receivers about whom it reaches.
--                 Bootstrap is the actor of src/p2p/bootstrap.rs: Trace is about its runs, Ends about
--                 how they end. KeepAlive is src/p2p/peers/keep_alive.rs, with Silence about the
--                 connections it closes and Pings about the pongs that answer its pings.
--                 Tor is src/p2p/tor.rs, the client of Tor's control port: Line is about one line of a
--                 reply, Auth has the authentication; Reply is about the reading of replies, Proof, with
--                 Sends, about the authentication, and Onion, with Sections, about the hidden service.
--                 Server is src/p2p/server.rs, with Start about its start.
--   Address       NodeAddress as text, src/bisq/payload.rs, and the network's seed nodes,
--                 src/bisq/constants.rs. Texts is about the round trip.
--   Api           src/api/graphql.rs, src/api/graphql/btc_offer.rs and src/api/server.rs: the queries and
--                 the fields of their answers. Scalars, BtcOffer, Offers, Trades, Fields and Server have
--                 the parts; Offers/Views, Trades/Page and Fields/Panics are about them.
--   Cli           src/cli.rs and src/cli/query.rs: the commands daemon and offers. Config and Answers are
--                 about what they make of arguments that clap accepts.
--   Correlation   src/bisq/correlation.rs: what tells which response answers a request.
--   Base          what these share: the hash map and the hash set of the standard library as lists,
--                 integers, powers, tests, the order of a list (Sorted), and the text that the standard
--                 library splits, reads and writes (Text).
--
-- The parts interact by calls: the offer book prices its offers by Offer, which takes its precision
-- from Currency and its market from Market; the statistics sum up Trade values in amounts by Amount,
-- over the periods of Interval. The actor Peers writes the Status that the API reads. The data router
-- verifies what peers send by Payload, makes offers and trades of it by Convert, and sends them to the
-- offer book and the statistics; what it has sent is handled in the order of the sends, later. What the
-- offer book accepts, the router gives to the broadcaster. A socket's bytes become messages in
-- MessageStream, which Connection gives to a request or to a chain of Dispatch, whose last actors are the
-- router, the peers and others. Server takes its address from Tor and tells it to Bootstrap and Peers;
-- Bootstrap hands the answers of a seed node to the dispatcher and its connection to Peers. Cli makes the
-- configuration that all start from, and asks the Api, which reads the book and the statistics.
--
-- Times are nanoseconds since UNIX_EPOCH. The clock is an argument of each handler. A panic is `none`
-- where the code can reach one. The calendar of the crate chrono is a record of operations, Chrono,
-- with the laws IsChrono that its documentation gives; Statistics/Calendar is an instance of both. No
-- law speaks of the conversion or the sum of a time past the last one that chrono can represent.
-- Whether an address resolves is an argument of the steps of Peers. The mailboxes between the data
-- router, the book and the statistics are one queue, since actix delivers the messages of one sender
-- to one actor in order. The unstable sorts are TradeSort, PairSort and PriceSort, operations with a
-- law; that of PriceSort holds for any comparator. What Tor's control port sends is a list of lines in
-- the state of TorControl; the digests that it needs are the record TorCrypto, and what clap reads of
-- the command line is the record Matches. What the crates prost, bitcoin_hashes and openssl do is the
-- record Crypto: the bytes of a message, digests, keys and signatures.
--
-- Fuel: the loops of `mul` have as much as the precision that they count down; the digits of `format`
-- have the amount, which each round divides by ten; the periods of `intervals` have one for each
-- nanosecond to the last period's end, and each takes at least one. A poll of a socket has two rounds for
-- each byte that it will give, and two; the loops in it have the bytes that they want, or the envelopes in
-- the buffer.
--
-- Not modelled: the opening of sockets, the shutdown of a connection and the change of its
-- dispatcher (src/p2p/connection.rs), the start-up of the actors (src/daemon.rs), the macros for
-- all messages (src/bisq/), the HTTP client of the price feed, what the crates juniper, actix_web
-- and clap do with a request or an argument (src/api/, src/cli.rs), the commands check-node and
-- dummy-seed (src/checker.rs, src/dummy_seed.rs), logging, and generated code (src/generated/) but
-- for the records that peers exchange.
pub mod Base
pub mod Capability
pub mod Amount
pub mod Currency
pub mod Market
pub mod F64
pub mod Hash
pub mod Address
pub mod Api
pub mod Offer
pub mod OfferBook
pub mod Payload
pub mod Correlation
pub mod Convert
pub mod DataRouter
pub mod PriceFeed
pub mod Statistics
pub mod P2p
pub mod Cli
