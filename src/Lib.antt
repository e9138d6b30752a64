-- ===== src/Lib.antt =====
-- The Rust client of the Ratelimitly service: a caller asks whether a set of resource requests and
-- latency guards passes, the client sends one UDP packet to every replica, in rounds, and returns
-- the answer of the oldest server that it can get.
--
-- The parts and their files:
--   Error       src/error.rs: the error types, `From<CoreError>`, and the answers of the system to a
--               send.
--   Duration    `duration_to_u32_ms` of src/model.rs, over a `Duration` of seconds and nanoseconds.
--   Policy      src/request_policy.rs: Policy/Schedule has `Schedule` and `units`, Policy/Request
--               `RequestPolicy`, `horizon_ms` and the builder.
--   Protocol    src/protocol.rs: the constants, the blocks on the wire with their readers and writers,
--               in Protocol/Cipher `encrypt_pdu` and `decrypt_pdu`, in Protocol/Id the content ids.
--   Client      src/client.rs. Client/Auth: `append_auth_tlv` and `parse_auth_tlv`. Client/Response:
--               `parse_rate_response_with_auth` and what it calls, `peek_server_id` and
--               `peek_request_id`. Client/Servers: ages, statistics and targets. Client/Send:
--               `FamilySockets::send_to` and `send_to_missing`. Client/Retry: the exchange of
--               `_check_rate_limit_with_retries`, from the first send to the answer. Client/Request:
--               the bodies and PDUs of requests and reports. Client/Packet: the packet that is
--               sent. Client/Steering: the walk through the source ports, in Client/Steering/Feedback
--               `apply_steering_feedback`, whole and in its steps between the locks. Client/Router:
--               the registrations of requests and `response_router`. Client/New: `CoreClient::new`
--               and src/config.rs. Client/Refresh: `maybe_periodic_dns_refresh`. Client/Check:
--               `check_rate_limit` up to the exchange. Client/Report: `report_latency`.
--               Client/Targets: `_refresh_servers`, `parse_server_id_from_target` and
--               `current_targets`. Client/Sockets: the bind of both families, `local_addr`, and the
--               order in which `recv_from` reads.
--   ApiKey      ApiKey/Bech32 and ApiKey/Codec: src/api_key_codec.rs, `bech32_decode`,
--               `bech32_encode`, `convert_bits`, the checksum, and `decode_api_key`. ApiKey/Key:
--               `ApiKey::from_str` of src/api_key.rs.
--   Model       src/model.rs: `Resource::new`, the builder of a `LatencyTracker`, and the parts of a
--               `Response`, in Model/Hex the display of ids.
--   PublicClient  src/public_client.rs: in PublicClient/Request `RequestBuilder`, in
--               PublicClient/Send its `send`, in PublicClient/Domain `valid_dns_name`, in
--               PublicClient/Builder `Client` and `ClientBuilder`, in PublicClient/Report
--               `report_latency`.
--   Traffic     src/traffic.rs: the counters and what is added, in Traffic/Steps the atomic steps of
--               `add` by tasks that take turns.
--   Common      shared names and lemmas: `Result` with the case of a panic, byte strings, little-endian
--               words, slices that panic out of bounds, and the layout of fields in a buffer.
--   Tests       runs on concrete inputs.
--
-- How the parts interact: an exchange (Client/Retry) sends to the targets whose servers have not
-- answered (Client/Send), waits for the units of the policy's schedule (Policy/Schedule), peeks at and
-- parses each packet (Client/Response, Client/Auth, Protocol), and keeps the answer of the oldest
-- server (Client/Servers). A request comes from the public builder (PublicClient/Request), whose limits
-- are those of the parsed key (ApiKey/Key), and `send` hands it to `check_rate_limit` (Client/Check),
-- which builds the packet (Client/Packet) and runs the exchange. `ClientBuilder` hands its configuration
-- to `CoreClient::new` (Client/New), whose servers grow old until a refresh is due (Client/Refresh). What
-- an exchange receives is what the router (Client/Router) sends into the channel of its request id, and
-- behind an exchange comes `apply_steering_feedback` (Client/Steering/Feedback).
--
-- Conventions. A byte is a number, a buffer a list of them. A slice, an index or a conversion out
-- of bounds is `panic`, an early return `err`; a panic goes on to the caller, through an exchange, too. Machine integers are natural numbers with the
-- wrap-around written out. A `HashSet` is a list of its elements, a `HashMap` a list of its entries.
-- Time and network are data: a round of an exchange has the answers of its sends and the packets
-- that are received before its deadline, in order, and an exchange has a round for each number up
-- to the replay count, so that no fuel is needed: the loops recurse on the count, the list of
-- targets or the list of packets. The cipher of the crate `aes-gcm` is a parameter, of which some
-- theorems assume that it opens what it seals and adds a tag of 16 bytes; nonces are arguments.
-- The hash of the crate `blake2` is a parameter as well, taken to give 32 bytes. The search for a port
-- recurses on the source's own bound, the number of dynamic ports.
--
-- The fuel of the inner loop of `convert_bits` is the number of bits that it has, of which a turn takes
-- some. The traffic counters are stepped: a load answers any number, as a relaxed load may be stale,
-- and an exchange succeeds only on the value that the counter has.
-- A text is the list of its code points or, behind the tests for ASCII, of its bytes. The DNS resolver
-- is a parameter, and so are the texts of IP addresses.
--
-- The router and the steering of the source port are stepped, too: the turns of requests and of the
-- router, and the moves of tasks between the locks, come in any order. The locks of the library tokio
-- are the conditions of the moves: a guard is given when no guard that excludes it is held. The rebind
-- is one move, since its task holds all the locks that exclude other tasks from what it changes; or it is
-- dropped at one of its awaits, which leaves what was done up to there.
--
-- Not modelled: the sockets themselves, what the epoch of the sockets does in the loop of the router
-- beyond its acknowledgement, the construction of the resolver and of a socket (calls into libraries), the
-- messages of the log, `Debug` of the public values, and the crate root, which has no code of its own.
pub mod Common
pub mod Error
pub mod Duration
pub mod Policy
pub mod Protocol
pub mod Client
pub mod ApiKey
pub mod Model
pub mod PublicClient
pub mod Traffic
pub mod Tests
