-- ===== src/Lib.antt =====
-- The access-gate gateway: what decides whether a request may reach the protected upstream, and what
-- keeps a single-use consume from being spent twice (the crate under core/), the native server
-- around it (gateway-rust/), and the state of the Cloudflare worker (worker/).
--
-- Parts, and the files that model them:
-- core/src/redemption.rs: Redemption/Leases (leases and commits of consume digests), Redemption/Nonces
--   (challenge nonces) and Redemption/Rates (rate windows). A `HashMap` is an association list (Assoc)
--   whose order stands for the iteration order; the theorems hold for every such list without double
--   keys.
-- core/src/state.rs: State, the in-memory store over these tables. The clock's reading and the
--   random bytes are arguments; the mutexes are not modelled, each method is one table call.
-- core/src/proof.rs: Proof and Proof/Base58, the field grammar, the signed message and the token.
-- core/src/sig.rs: Sig, the signature schemes' dispatch and layout, and addresses.
-- core/src/headers.rs and core/src/forward.rs: Headers and Forward, the predicates on headers, paths and
--   sizes (Forward/Decimal: what a text of digits says).
-- core/src/origin.rs: Origin, canonical origins and the comparison of the request-loop guard.
-- core/src/config.rs: Config, the configuration record; Config/Values, the parsers of single variables;
--   Config/Load, `GatewayConfig::from_env`.
-- core/src/decision.rs: Decision, `verify_access_request` over the ports.
-- core/src/gateway.rs: Gateway, `Gateway::handle` with every route, `redeem_and_forward` included.
--
-- core/src/grpc.rs: Grpc/Wire (the protobuf writer and reader), Grpc/Values (the search in a
--   `google.protobuf.Value`), Grpc/Frames (the gRPC-web framing) and Grpc (the call over a `Transport`).
-- core/src/chain.rs: Chain (names, field numbers and request builders), Chain/Responses (the readers of
--   answers) and Chain/Client (`SuiRpc`: the ownership cache, the paging and the polling).
-- core/src/quota.rs: Quota, the plan, the civil calendar and the usage window.
-- core/src/net.rs: Net, the key that a client's requests are counted under.
-- worker/src/do_state.rs, region.rs and state.rs: Worker/Durable (the redemptions of the Durable Object;
--   Worker/Durable/Limits, its nonces and rate windows), Worker/Dispatch (its operations by the query, with
--   the numbers of Worker/Numbers), Worker/Region (the routing to its shards) and Worker/Store (the store
--   over the objects; before each call the objects may change, and a call may fail before or after the
--   object ran it). config.rs: Worker/Config.
--   A SQL table is the list of its rows, and each statement is what it asks of them; a statement does
--   not fail. What the engine leaves open for a lease, the row that `LIMIT 1` gives of several that expire
--   first and the number that an expiry reads back as, is the parameter `Sql` of Worker/Durable, with what
--   the engine documents as the laws `IsSql`; Tests/Worker has an instance. The expiries of nonces and
--   the rate windows are read as exact numbers.
--
-- gateway-rust/src/challenge.rs: Native/Redis, the nonces and redemptions on a Redis server, and
--   Native/State, the choice between that store and the one in memory, which state.rs puts behind
--   `StateStore`. Before each command of a call come any commands of other processes, each with the
--   server's time; a command may fail before or after the server ran it.
-- gateway-rust/src/state.rs: Native/Clock. gateway-rust/src/config.rs: Native/Config.
-- gateway-rust/src/headers.rs: Native/Headers, the policies on header maps. http_client.rs and grpc.rs:
--   Native/HttpClient. proxy.rs: Native/Proxy.
-- gateway-rust/src/main.rs: Native/Router (the request head, the rendering and the CORS middleware),
--   Native/Wiring (the gateway of one request: its ports are the store, the chain client over the HTTP
--   client and the proxy; sui_rpc.rs is there too) and Native/Serve (the accept loop as a step relation,
--   with a step for each millisecond of the grace period).
-- Redis (Native/Redis), header maps (Native/HeaderMap), the HTTP stack (Native/HttpClient) and the
--   semaphore (Native/Serve) are records that stand for the crates, with what these document as a record
--   of laws; Tests has an instance of each.
--
-- The traits `StateStore`, `ChainQuery` and `Upstream` are the record `Ports` over a world; a port's
-- answer is any function of the world, so it may stand for whatever other requests do in between.
-- Gateway/Memory fills the record from State, with the calls of other requests between any two calls
-- of one. Other crates' functions (base64, JSON parsing, hex, the hash and the curves) are the
-- parameters `Crates` of External; no law of them is assumed.
--
-- The trait `Transport` is a record over a world too; the ownership cache stands in that world, so
-- that a call may find it changed.
--
-- Strings are lists of Unicode scalar values, byte slices lists of bytes (Text). A `u64` is a natural
-- number with the saturating operations of Base/Words. The loops run on lists; the three on numbers
-- have a fixed number of rounds: `uleb128` ten groups of seven bits for a `u64`, `spill` four bytes
-- for a `u32`, `digits` the twenty digits that a `u64` has at most. The reader of protobuf fields and the reader of frames have as many rounds as there
-- are bytes, and each round takes at least one byte (five, of a frame); more rounds change nothing of
-- the fields. `value_find_string_at` counts down the 32 levels of the source, `scan_pages` its 100
-- pages and `fetch_tx` its 4 attempts. A `usize` has 64 bits in the reader.
--
-- Not modelled: error wording of the decoders, async scheduling inside one port call; of
-- gateway-rust/ the startup of the process, the retries of the Redis connection, the routing of
-- /healthz, the shedding of load, the signals and the logging; of worker/ what is not named above; the
-- TypeScript gateway gateway-workers/; and of the core the floating-point part of quota.rs with its
-- GraphQL query and the printing of instants, and the redacting `Debug` instances.
pub mod Base
pub mod Text
pub mod Assoc
pub mod Redemption
pub mod State
pub mod External
pub mod Headers
pub mod Forward
pub mod Proof
pub mod Sig
pub mod Origin
pub mod Config
pub mod Ports
pub mod Decision
pub mod Gateway
pub mod Grpc
pub mod Chain
pub mod Quota
pub mod Net
pub mod Native
pub mod Worker
pub mod Tests
