-- ===== src/Client/Retry.antt =====
-- The exchange with the servers in `_check_rate_limit_with_retries` of src/client.rs: transmission
-- rounds, the receive loops, the choice of the answer, and the completion delivery. Time and network
-- are data: a round has the answers of its sends, and the packets that `recv` yields before the
-- deadline of the round, in order; a packet that comes later stands in the next list.
pub mod Plain
pub mod Accept
pub mod Answer
pub mod Choice
pub mod Order
use rl_rust_client.Common.{
  ℕ, zero, suc, ◌+◌, List, [], ◌∷◌, ◌++◌, Bool, true, false, not, ◌&&◌, ◌||◌, ltb, ◌==◌,
  if◌then◌else◌, Option, none, some, Result, ok, err, panic,
}
use rl_rust_client.Error.{ConfigurationError, CoreError, timeout, config, text}
use rl_rust_client.Policy.Schedule.{units}
use rl_rust_client.Policy.Request.{RequestPolicy}
use rl_rust_client.Protocol.Cipher.{Cipher}
use rl_rust_client.Client.Auth.{AuthMethod, cookie_hash_cache, aes_key_cache}
use rl_rust_client.Client.Response.{RateLimitResult, parse_rate_response_with_auth, peek_server_id}
use rl_rust_client.Client.Servers.{
  SocketAddr, ResolvedTargets, Stats, has_id, insert_id, insert_addr, update_entry, is_older,
  oldest_server_id,
}
use rl_rust_client.Client.Send.{FamilySockets, send_to_missing}

pub record ResponsePacket : Type 0 where
  pub bytes : List ℕ
  pub addr : SocketAddr
  pub at : ℕ

-- What the client keeps for the exchange: the authentication, the policy and the targets.
pub record Exchange : Type 0 where
  pub cipher : Cipher
  pub auth_method : AuthMethod
  pub policy : RequestPolicy
  pub resolved : ResolvedTargets

-- `_parse_rate_response`
abbrev pub parse_reply : Exchange → List ℕ → Result CoreError RateLimitResult
parse_reply x bytes =
    parse_rate_response_with_auth x.cipher bytes x.auth_method (cookie_hash_cache x.auth_method)
      (aes_key_cache x.auth_method)

-- The variables of the exchange, and the targets of each send so far.
pub record State : Type 0 where
  pub seen_server_ids : List ℕ
  pub seen_addrs : List SocketAddr
  pub best : Option RateLimitResult
  pub stats : Stats
  pub log : List (List SocketAddr)

abbrev pub is_disallowed : List ℕ → ℕ → Bool
is_disallowed [] id = false
is_disallowed (a ∷ allowed) id = not (has_id (a ∷ allowed) id)

-- The tests of `accept_policy_response`: the result that a packet is accepted for, if any.
abbrev pub result_of : Result CoreError RateLimitResult → Result CoreError (Option RateLimitResult)
result_of (ok result) = ok (some result)
result_of (err _) = ok none
result_of panic = panic

abbrev pub checked :
    List ℕ
    → Result CoreError (Option ℕ)
    → Result CoreError RateLimitResult
    → Result CoreError (Option RateLimitResult)
checked allowed (ok (some server_id)) parsed =
    if is_disallowed allowed server_id then ok none else result_of parsed
checked allowed (ok none) parsed = ok none
checked allowed (err _) parsed = ok none
checked allowed panic parsed = panic

unfoldable pub accepted : Exchange → ResponsePacket → Result CoreError (Option RateLimitResult)
accepted x packet =
    checked x.resolved.allowed_server_ids (peek_server_id packet.bytes) (parse_reply x packet.bytes)

-- Its effects on an accepted result.
unfoldable pub note_accepted : ResponsePacket → RateLimitResult → State → State
note_accepted packet result s = record s {
  seen_server_ids = insert_id s.seen_server_ids result.server_id;
  seen_addrs = insert_addr s.seen_addrs packet.addr;
  stats =
      update_entry s.stats result.server_id packet.at
        (λ e. record e { last_seen = packet.at; valid_responses = e.valid_responses + 1 });
}

abbrev pub note : ResponsePacket → State → Option RateLimitResult → State × Option RateLimitResult
note packet s none = (s, none)
note packet s (some result) = (note_accepted packet result s, some result)

abbrev pub note_result :
    ResponsePacket
    → State
    → Result CoreError (Option RateLimitResult)
    → State × Result CoreError (Option RateLimitResult)
note_result packet s (ok o) = let (s', o') = note packet s o in (s', ok o')
note_result packet s (err e) = (s, err e)
note_result packet s panic = (s, panic)

unfoldable pub accept_policy_response :
    Exchange → ResponsePacket → State → State × Result CoreError (Option RateLimitResult)
accept_policy_response x packet s = note_result packet s (accepted x packet)

-- `if best.as_ref().is_none_or(|current| older) { best = Some(result.clone()) }`
unfoldable pub better : Option RateLimitResult → RateLimitResult → Option RateLimitResult
better none result = some result
better (some current) result =
    if is_older result.server_id current.server_id then some result else some current

abbrev pub is_server : Option ℕ → ℕ → Bool
is_server none id = false
is_server (some oldest) id = oldest == id

-- The body of the receive loop of a transmission round behind `accept_policy_response`; `rest` is
-- the loop, which answers its variables, and a panic where there is one.
abbrev pub Received : Type 0
Received = State × Result CoreError (Unit {0})

abbrev pub choose :
    Option ℕ → ℕ → (State → Received) → State × Result CoreError (Option RateLimitResult) → Received
choose oldest round rest (s, ok none) = rest s
choose oldest round rest (s, ok (some result)) =
    let s' = record s { best = better s.best result } in
    if is_server oldest result.server_id || ltb 0 round then (s', ok tt) else rest s'
choose oldest round rest (s, err e) = (s, err e)
choose oldest round rest (s, panic) = (s, panic)

unfoldable pub receive_round : Exchange → Option ℕ → ℕ → List ResponsePacket → State → Received
receive_round x oldest round [] s = (s, ok tt)
receive_round x oldest round (packet ∷ packets) s =
    let rest = receive_round x oldest round packets in
    choose oldest round rest (accept_policy_response x packet s)

-- One round as the environment runs it.
pub record Round : Type 0 where
  pub sockets : FamilySockets
  pub sent_at : ℕ
  pub arrivals : List ResponsePacket

-- What a round and the rounds behind it end with: an error, no answer, or an answer.
abbrev pub Outcome : Type 0
Outcome = Result CoreError (Option RateLimitResult)

-- The same for the final receive phase.
abbrev pub take_first : (State → State × Outcome) → State × Outcome → State × Outcome
take_first rest (s, ok none) = rest s
take_first rest (s, ok (some result)) = (s, ok (some result))
take_first rest (s, err e) = (s, err e)
take_first rest (s, panic) = (s, panic)

unfoldable pub receive_final : Exchange → List ResponsePacket → State → State × Outcome
receive_final x [] s = (s, ok none)
receive_final x (packet ∷ packets) s =
    let rest = receive_final x packets in take_first rest (accept_policy_response x packet s)

-- A send of a round, with its targets in the log.
unfoldable pub transmit : Exchange → FamilySockets → ℕ → State → State × Result CoreError (Unit {0})
transmit x sockets now s =
    let (stats, log, outcome) =
      send_to_missing sockets x.resolved s.seen_server_ids s.seen_addrs s.stats now in
    (record s { stats = stats; log = s.log ++ (log ∷ []) }, outcome)

-- The end of a round, by `best`; `rest` are the rounds behind it.
abbrev pub settle : (State → State × Outcome) → State → Option RateLimitResult → State × Outcome
settle rest s none = rest s
settle rest s (some result) = (s, ok (some result))

abbrev pub schedule_error : CoreError
schedule_error = config (text "request policy schedule is invalid")

-- A round behind its receive loop.
abbrev pub received : (State → State × Outcome) → Received → State × Outcome
received rest (s, ok _) = settle rest s s.best
received rest (s, err e) = (s, err e)
received rest (s, panic) = (s, panic)

-- A round behind its sends.
abbrev pub listen :
    (State → Received)
    → (State → State × Outcome)
    → State
    → Result ConfigurationError ℕ
    → State × Outcome
listen receive rest s (err _) = (s, err schedule_error)
listen receive rest s panic = (s, panic)
listen receive rest s (ok _) = received rest (receive s)

abbrev pub after_send :
    (State → Received)
    → (State → State × Outcome)
    → Result ConfigurationError ℕ
    → State × Result CoreError (Unit {0})
    → State × Outcome
after_send receive rest duration (s, err e) = (s, err e)
after_send receive rest duration (s, panic) = (s, panic)
after_send receive rest duration (s, ok _) = listen receive rest s duration

-- The `left` rounds from `round` on, then the final receive phase.
unfoldable pub run_rounds :
    Exchange → Option ℕ → (ℕ → Round) → List ResponsePacket → ℕ → ℕ → State → State × Outcome
run_rounds x oldest rounds final zero round s =
    if ltb 0 x.policy.final_receive_units then receive_final x final s else (s, ok none)
run_rounds x oldest rounds final (suc left) round s =
    let r = rounds round in
    let rest = run_rounds x oldest rounds final left (round + 1) in
    after_send (receive_round x oldest round r.arrivals) rest (units x.policy.replay_gap round)
      (transmit x r.sockets r.sent_at s)

unfoldable pub start_state : Stats → State
start_state stats = record {
  seen_server_ids = [];
  seen_addrs = [];
  best = none;
  stats = stats;
  log = [];
}

-- The completion delivery behind a selected answer, if the policy asks for it and the horizon has
-- not passed. Its failure is ignored.
unfoldable pub complete : Exchange → Bool → FamilySockets → ℕ → State → State
complete x in_time sockets now s =
    if x.policy.completion_delivery && in_time then (transmit x sockets now s).0 else s

-- What the environment does in an exchange.
pub record Environment : Type 0 where
  pub rounds : ℕ → Round
  pub final : List ResponsePacket
  pub in_time : Bool
  pub completion_sockets : FamilySockets
  pub completion_at : ℕ
  -- The error of `apply_steering_feedback`, if any: it may bind another socket.
  pub steering_error : RateLimitResult → Option CoreError

-- `self.apply_steering_feedback(&result).await?`, and the result.
abbrev pub after_steering : RateLimitResult → Option CoreError → Result CoreError RateLimitResult
after_steering result none = ok result
after_steering result (some error) = err error

-- The end of the exchange, by its outcome.
abbrev pub finish :
    Exchange → Environment → State × Outcome → State × Result CoreError RateLimitResult
finish x env (s, err e) = (s, err e)
finish x env (s, panic) = (s, panic)
finish x env (s, ok none) = (s, err timeout)
finish x env (s, ok (some result)) = (
  complete x env.in_time env.completion_sockets env.completion_at s,
  after_steering result (env.steering_error result),
)

-- From the first send to the answer.
unfoldable pub exchange : Exchange → Environment → Stats → State × Result CoreError RateLimitResult
exchange x env stats =
    let oldest = oldest_server_id x.resolved.allowed_server_ids in
    finish x env
      (run_rounds x oldest env.rounds env.final (x.policy.replay_count + 1) 0 (start_state stats))
