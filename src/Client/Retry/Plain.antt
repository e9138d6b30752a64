-- ===== src/Client/Retry/Plain.antt =====
-- The exchange of src/client.rs for a peek and a parser that do not panic: the loops answer a state
-- and no panic. What the rounds end with is proved of these.
use rl_rust_client.Common.{
  ℕ, zero, suc, ◌+◌, ◌≡◌, refl, ap, ◌∙◌, arith, List, [], ◌∷◌, Bool, Bool-cases, inl, inr, true,
  false, ◌||◌, ltb, if◌then◌else◌, Option, none, some, Result, ok, err, panic, Returns, ensures_ok,
  length, ltb-false→le,
}
use rl_rust_client.Common.Bytes.{Ensures-u16, Ensures-uint}
use rl_rust_client.Error.{ConfigurationError, CoreError}
use rl_rust_client.Policy.Schedule.{units}
use rl_rust_client.Client.Auth.{cookie_hash_cache, aes_key_cache}
use rl_rust_client.Client.Response.{RateLimitResult, peek_server_id}
use rl_rust_client.Client.Response.Safe.{parse_rate_response_safe}
use rl_rust_client.Client.Servers.{Stats, oldest_server_id}
use rl_rust_client.Client.Retry.{
  Exchange, State, ResponsePacket, Round, Environment, Outcome, Received, parse_reply,
  is_disallowed, result_of, checked, accepted, note, note_result, accept_policy_response, better,
  is_server, choose, receive_round, take_first, receive_final, transmit, settle, received,
  after_send, schedule_error, run_rounds, start_state, finish, exchange,
}

abbrev pub plain_result_of : Result CoreError RateLimitResult → Option RateLimitResult
plain_result_of (ok result) = some result
plain_result_of _ = none

abbrev pub plain_checked :
    List ℕ → Result CoreError (Option ℕ) → Result CoreError RateLimitResult → Option RateLimitResult
plain_checked allowed (ok (some server_id)) parsed =
    if is_disallowed allowed server_id then none else plain_result_of parsed
plain_checked allowed _ parsed = none

unfoldable pub plain_accepted : Exchange → ResponsePacket → Option RateLimitResult
plain_accepted x packet =
    plain_checked x.resolved.allowed_server_ids (peek_server_id packet.bytes)
      (parse_reply x packet.bytes)

unfoldable pub plain_accept : Exchange → ResponsePacket → State → State × Option RateLimitResult
plain_accept x packet s = note packet s (plain_accepted x packet)

abbrev pub plain_choose : Option ℕ → ℕ → (State → State) → State × Option RateLimitResult → State
plain_choose oldest round rest (s, none) = rest s
plain_choose oldest round rest (s, some result) =
    let s' = record s { best = better s.best result } in
    if is_server oldest result.server_id || ltb 0 round then s' else rest s'

unfoldable pub plain_receive_round : Exchange → Option ℕ → ℕ → List ResponsePacket → State → State
plain_receive_round x oldest round [] s = s
plain_receive_round x oldest round (packet ∷ packets) s =
    let rest = plain_receive_round x oldest round packets in
    plain_choose oldest round rest (plain_accept x packet s)

abbrev pub plain_take_first :
    (State → State × Option RateLimitResult)
    → State × Option RateLimitResult
    → State × Option RateLimitResult
plain_take_first rest (s, none) = rest s
plain_take_first rest (s, some result) = (s, some result)

unfoldable pub plain_receive_final :
    Exchange → List ResponsePacket → State → State × Option RateLimitResult
plain_receive_final x [] s = (s, none)
plain_receive_final x (packet ∷ packets) s =
    let rest = plain_receive_final x packets in plain_take_first rest (plain_accept x packet s)

abbrev pub plain_listen :
    (State → State)
    → (State → State × Outcome)
    → State
    → Result ConfigurationError ℕ
    → State × Outcome
plain_listen receive rest s (err _) = (s, err schedule_error)
plain_listen receive rest s panic = (s, panic)
plain_listen receive rest s (ok _) = let s' = receive s in settle rest s' s'.best

abbrev pub plain_after_send :
    (State → State)
    → (State → State × Outcome)
    → Result ConfigurationError ℕ
    → State × Result CoreError (Unit {0})
    → State × Outcome
plain_after_send receive rest duration (s, err e) = (s, err e)
plain_after_send receive rest duration (s, panic) = (s, panic)
plain_after_send receive rest duration (s, ok _) = plain_listen receive rest s duration

abbrev pub final_answer : State × Option RateLimitResult → State × Outcome
final_answer (s, answer) = (s, ok answer)

unfoldable pub plain_run_rounds :
    Exchange → Option ℕ → (ℕ → Round) → List ResponsePacket → ℕ → ℕ → State → State × Outcome
plain_run_rounds x oldest rounds final zero round s =
    if ltb 0 x.policy.final_receive_units
    then final_answer (plain_receive_final x final s)
    else (s, ok none)
plain_run_rounds x oldest rounds final (suc left) round s =
    let r = rounds round in
    let rest = plain_run_rounds x oldest rounds final left (round + 1) in
    plain_after_send (plain_receive_round x oldest round r.arrivals) rest
      (units x.policy.replay_gap round) (transmit x r.sockets r.sent_at s)

unfoldable pub plain_exchange :
    Exchange → Environment → Stats → State × Result CoreError RateLimitResult
plain_exchange x env stats =
    let oldest = oldest_server_id x.resolved.allowed_server_ids in
    finish x env (
      plain_run_rounds x oldest env.rounds env.final (x.policy.replay_count + 1) 0
        (start_state stats))

-- A peek does not panic.
peek_server_id_safe : (packet : List ℕ) → Returns (peek_server_id packet)
unfolding peek_server_id
peek_server_id_safe packet = elim (Bool-cases (ltb (length packet) 12)) [
  | inl e ↦ rw e (ensures_ok tt)
  | inr e ↦
      let long = ltb-false→le (length packet) 12 e in
      rw e (
        Ensures-u16 packet 0 1 _ (omega arith) (omega arith) λ tlv_type.
          Ensures-u16 packet 2 3 _ (omega arith) (omega arith) λ tlv_size.
            either _ _ (Ensures-uint 8 packet 4 12 _ refl (omega arith) λ id. ensures_ok tt))
]
  where
    either :
        (b : Bool) (read : Result CoreError (Option ℕ))
        → Returns read
        → Returns (if b then ok none else read)
    either true read h = ensures_ok tt
    either false read h = h

result_of-plain :
    (parsed : Result CoreError RateLimitResult)
    → Returns parsed
    → result_of parsed ≡ ok (plain_result_of parsed)
result_of-plain (ok result) h = refl
result_of-plain (err e) h = refl
result_of-plain panic h = elim h [ ]

checked-plain :
    (allowed : List ℕ) (peeked : Result CoreError (Option ℕ))
    (parsed : Result CoreError RateLimitResult)
    → Returns peeked
    → Returns parsed
    → checked allowed peeked parsed ≡ ok (plain_checked allowed peeked parsed)
checked-plain allowed (ok (some id)) parsed h k = elim (Bool-cases (is_disallowed allowed id)) [
  | inl e ↦ rw e refl
  | inr e ↦ rw e (result_of-plain parsed k)
]
checked-plain allowed (ok none) parsed h k = refl
checked-plain allowed (err e) parsed h k = refl
checked-plain allowed panic parsed h k = elim h [ ]

abbrev no_panic : State × Option RateLimitResult → State × Result CoreError (Option RateLimitResult)
no_panic (s, o) = (s, ok o)

accept-plain :
    (x : Exchange) (packet : ResponsePacket) (s : State)
    → accept_policy_response x packet s ≡ no_panic (plain_accept x packet s)
unfolding accept_policy_response accepted plain_accept plain_accepted
accept-plain x packet s = ap (note_result packet s) (
    checked-plain x.resolved.allowed_server_ids (peek_server_id packet.bytes)
      (parse_reply x packet.bytes) (peek_server_id_safe packet.bytes)
      (parse_rate_response_safe x.cipher packet.bytes x.auth_method
        (cookie_hash_cache x.auth_method) (aes_key_cache x.auth_method)))

choose-plain :
    (oldest : Option ℕ) (round : ℕ) (rest : State → Received) (plain : State → State)
    (r : State × Option RateLimitResult)
    → ((s : State) → rest s ≡ (plain s, ok tt))
    → choose oldest round rest (no_panic r) ≡ (plain_choose oldest round plain r, ok tt)
choose-plain oldest round rest plain (s, none) h = h s
choose-plain oldest round rest plain (s, some result) h =
    either (is_server oldest result.server_id || ltb 0 round)
  where
    s' : State
    s' = record s { best = better s.best result }

    either :
        (b : Bool)
        → ◌≡◌ {A = Received}
            (if b then (s', ok tt) else rest s')
            (if b then s' else plain s', ok tt)
    either true = refl
    either false = h s'

receive_round-plain :
    (x : Exchange) (oldest : Option ℕ) (round : ℕ) (packets : List ResponsePacket) (s : State)
    → receive_round x oldest round packets s ≡ (plain_receive_round x oldest round packets s, ok tt)
unfolding receive_round plain_receive_round
receive_round-plain x oldest round [] s = refl
receive_round-plain x oldest round (packet ∷ packets) s =
    ap (choose oldest round (receive_round x oldest round packets)) (accept-plain x packet s)
    ∙ choose-plain oldest round (receive_round x oldest round packets)
        (plain_receive_round x oldest round packets) (plain_accept x packet s)
        (receive_round-plain x oldest round packets)

take_first-plain :
    (rest : State → State × Outcome) (plain : State → State × Option RateLimitResult)
    (r : State × Option RateLimitResult)
    → ((s : State) → rest s ≡ no_panic (plain s))
    → take_first rest (no_panic r) ≡ no_panic (plain_take_first plain r)
take_first-plain rest plain (s, none) h = h s
take_first-plain rest plain (s, some result) h = refl

receive_final-plain :
    (x : Exchange) (packets : List ResponsePacket) (s : State)
    → receive_final x packets s ≡ no_panic (plain_receive_final x packets s)
unfolding receive_final plain_receive_final
receive_final-plain x [] s = refl
receive_final-plain x (packet ∷ packets) s =
    ap (take_first (receive_final x packets)) (accept-plain x packet s)
    ∙ take_first-plain (receive_final x packets) (plain_receive_final x packets)
        (plain_accept x packet s) (receive_final-plain x packets)

settle-plain :
    (rest plain : State → State × Outcome) (s : State) (o : Option RateLimitResult)
    → ((s : State) → rest s ≡ plain s)
    → settle rest s o ≡ settle plain s o
settle-plain rest plain s none h = h s
settle-plain rest plain s (some result) h = refl

after_send-plain :
    (receive : State → Received) (quiet : State → State) (rest plain : State → State × Outcome)
    (duration : Result ConfigurationError ℕ) (r : State × Result CoreError (Unit {0}))
    → ((s : State) → receive s ≡ (quiet s, ok tt))
    → ((s : State) → rest s ≡ plain s)
    → after_send receive rest duration r ≡ plain_after_send quiet plain duration r
after_send-plain receive quiet rest plain duration (s, err e) h k = refl
after_send-plain receive quiet rest plain duration (s, panic) h k = refl
after_send-plain receive quiet rest plain (err e) (s, ok _) h k = refl
after_send-plain receive quiet rest plain panic (s, ok _) h k = refl
after_send-plain receive quiet rest plain (ok d) (s, ok _) h k =
    ap (received rest) (h s) ∙ settle-plain rest plain (quiet s) (quiet s).best k

run_rounds-plain :
    (x : Exchange) (oldest : Option ℕ) (rounds : ℕ → Round) (final : List ResponsePacket)
    (left round : ℕ) (s : State)
    → run_rounds x oldest rounds final left round s
      ≡ plain_run_rounds x oldest rounds final left round s
unfolding run_rounds plain_run_rounds
run_rounds-plain x oldest rounds final zero round s =
    ap (λ r. if ltb 0 x.policy.final_receive_units then r else (s, ok none))
      (receive_final-plain x final s)
run_rounds-plain x oldest rounds final (suc left) round s =
    let r = rounds round in
    after_send-plain (receive_round x oldest round r.arrivals)
      (plain_receive_round x oldest round r.arrivals)
      (run_rounds x oldest rounds final left (round + 1))
      (plain_run_rounds x oldest rounds final left (round + 1)) (units x.policy.replay_gap round)
      (transmit x r.sockets r.sent_at s) (receive_round-plain x oldest round r.arrivals)
      (run_rounds-plain x oldest rounds final left (round + 1))

-- No packet makes the peek or the parser panic, so that the loops do without the case.
pub exchange-plain :
    (x : Exchange) (env : Environment) (stats : Stats)
    → exchange x env stats ≡ plain_exchange x env stats
unfolding exchange plain_exchange
exchange-plain x env stats = ap (finish x env) (
    run_rounds-plain x (oldest_server_id x.resolved.allowed_server_ids) env.rounds env.final
      (x.policy.replay_count + 1) 0 (start_state stats))
