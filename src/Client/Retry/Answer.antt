-- ===== src/Client/Retry/Answer.antt =====
-- Where the result of an exchange of src/client.rs comes from.
use rl_rust_client.Common.{
  ℕ, zero, suc, ◌+◌, ◌≤◌, ◌<◌, ◌≡◌, refl, arith, List, [], ◌∷◌, ◌||◌, ltb, not, Bool-cases, inl,
  inr, ◌⊎◌, Option, none, some, Option-cases, Result, ok, err, panic, Ensures, ◌==◌, Ensures-bail,
  Returns, ensures_ok, ensures_err,
}
use mathlib.Core.List.{Memᴰ}
use rl_rust_client.Error.{CoreError, IoError, io, ConfigurationError}
use rl_rust_client.Policy.Schedule.{
  Schedule, ScheduleKind, fixed_kind, linear_kind, exponential_kind, units, units_of,
}
use rl_rust_client.Client.Response.{RateLimitResult}
use rl_rust_client.Client.Servers.{is_older, oldest_server_id, Stats}
use rl_rust_client.Client.Send.{FamilySockets, SendLoop, finish_send, send_to_missing}
use rl_rust_client.Client.Retry.{
  Exchange, ResponsePacket, State, Round, Environment, better, is_server, transmit, Outcome, settle,
  finish, after_steering, exchange, start_state,
}
use rl_rust_client.Client.Retry.Plain.{
  plain_accepted, plain_receive_round, plain_receive_final, plain_listen, plain_after_send,
  plain_run_rounds, plain_exchange, exchange-plain,
}
use rl_rust_client.Client.Retry.Accept.{
  IsAnswer, accepted-IsAnswer, receive_round-rejected, receive_round-accepted,
  receive_final-rejected, receive_final-accepted,
}

abbrev Best : (RateLimitResult → Type 0) → Option RateLimitResult → Type 0
Best P none = Unit
Best P (some result) = P result

-- What is true of every result that a packet of the list is plain_accepted for.
abbrev Each : Exchange → (RateLimitResult → Type 0) → List ResponsePacket → Type 0
Each x P packets =
    (packet : ResponsePacket) (result : RateLimitResult)
    → Memᴰ packet packets
    → plain_accepted x packet ≡ some result
    → P result

Best-better :
    (P : RateLimitResult → Type 0) (best : Option RateLimitResult) (result : RateLimitResult)
    → Best P best
    → P result
    → Best P (better best result)
unfolding better
Best-better P none result b p = p
Best-better P (some current) result b p =
    elim (Bool-cases (is_older result.server_id current.server_id)) [
      | inl e ↦ rw e p
      | inr e ↦ rw e b
    ]

module _ (x : Exchange) (P : RateLimitResult → Type 0) where
  receive_round-Best :
      (oldest : Option ℕ) (round : ℕ) (packets : List ResponsePacket) (s : State)
      → Each x P packets
      → Best P s.best
      → Best P (plain_receive_round x oldest round packets s).best
  unfolding plain_receive_round
  receive_round-Best oldest round [] s each b = b
  receive_round-Best oldest round (packet ∷ packets) s each b =
      let later : Each x P packets = λ p r m e. each p r (Memᴰ.tail m) e in
      elim (Option-cases (plain_accepted x packet)) [
        | inl e ↦
            rw (receive_round-rejected x packet packets s oldest round e)
              (receive_round-Best oldest round packets s later b)
        | inr (result, e) ↦
            let p = Best-better P s.best result b (each packet result (Memᴰ.head refl) e) in
            rw (receive_round-accepted x packet packets s oldest round result e)
              (elim (Bool-cases (is_server oldest result.server_id || ltb 0 round)) [
                | inl stop ↦ rw stop p
                | inr go ↦ rw go (receive_round-Best oldest round packets _ later p)
              ])
      ]

  receive_final-Best :
      (packets : List ResponsePacket) (s : State)
      → Each x P packets
      → Best P (plain_receive_final x packets s).1
  unfolding plain_receive_final
  receive_final-Best [] s each = tt
  receive_final-Best (packet ∷ packets) s each = elim (Option-cases (plain_accepted x packet)) [
    | inl e ↦
        rw (receive_final-rejected x packet packets s e)
          (receive_final-Best packets s (λ p r m e. each p r (Memᴰ.tail m) e))
    | inr (result, e) ↦
        rw (receive_final-accepted x packet packets s result e)
          (each packet result (Memᴰ.head refl) e)
  ]

-- The outcome of rounds: no panic, and the property if there is an answer.
abbrev Good : (RateLimitResult → Type 0) → Outcome → Type 0
Good P outcome = Ensures (Best P) outcome

units_of_safe : (kind : ScheduleKind) (s : Schedule) (round : ℕ) → Returns (units_of kind s round)
unfolding units_of
units_of_safe fixed_kind s round =
    Ensures-bail (not (s.max_units == s.initial_units) || not (s.growth == 0)) _ _
      λ e. ensures_ok tt
units_of_safe linear_kind s round = Ensures-bail (s.growth == 0) _ _ λ e. ensures_ok tt
units_of_safe exponential_kind s round = Ensures-bail (ltb s.growth 2) _ _ λ e. ensures_ok tt

units_safe : (schedule : Schedule) (round : ℕ) → Returns (units schedule round)
unfolding units
units_safe schedule round =
    Ensures-bail (schedule.initial_units == 0 || ltb schedule.max_units schedule.initial_units) _ _
      λ e. units_of_safe schedule.kind schedule round

no_delivery :
    (last : Option IoError)
    → Returns {E = CoreError} (elim last [ none ↦ ok tt | some error ↦ err (io error) ])
no_delivery none = ensures_ok tt
no_delivery (some error) = ensures_err

send_safe : (stats : Stats) (now : ℕ) (s : SendLoop) → Returns (finish_send stats now s).1
unfolding finish_send
send_safe stats now s = elim (Bool-cases (s.delivered == 0)) [
  | inl e ↦ rw e (no_delivery s.last_error)
  | inr e ↦ elim (Bool-cases (ltb s.delivered s.attempted)) [
    | inl f ↦ rw (e, f) (ensures_ok tt)
    | inr f ↦ rw (e, f) (ensures_ok tt)
  ]
]

transmit-best :
    (x : Exchange) (sockets : FamilySockets) (now : ℕ) (s : State)
    → (transmit x sockets now s).0.best ≡ s.best
unfolding transmit
transmit-best x sockets now s = refl

module _ (x : Exchange) (P : RateLimitResult → Type 0) where
  transmit_safe :
      (sockets : FamilySockets) (now : ℕ) (s : State) → Returns (transmit x sockets now s).1
  unfolding transmit send_to_missing
  transmit_safe sockets now s = send_safe s.stats now _

  settle-Good :
      (rest : State → State × Outcome) (s : State) (best : Option RateLimitResult)
      → Best P best
      → Good P (rest s).1
      → Good P (settle rest s best).1
  settle-Good rest s none b later = later
  settle-Good rest s (some result) b later = ensures_ok b

  listen-Good :
      (receive : State → State) (rest : State → State × Outcome) (s : State)
      (duration : Result ConfigurationError ℕ)
      → Returns duration
      → Best P (receive s).best
      → Good P (rest (receive s)).1
      → Good P (plain_listen receive rest s duration).1
  listen-Good receive rest s (ok _) d b later =
      settle-Good rest (receive s) (receive s).best b later
  listen-Good receive rest s (err _) d b later = ensures_err
  listen-Good receive rest s panic d b later = elim d [ ]

  after_send-Good :
      (receive : State → State) (rest : State → State × Outcome)
      (duration : Result ConfigurationError ℕ) (s : State) (outcome : Result CoreError (Unit {0}))
      → Returns duration
      → Returns outcome
      → Best P (receive s).best
      → Good P (rest (receive s)).1
      → Good P (plain_after_send receive rest duration (s, outcome)).1
  after_send-Good receive rest duration s (ok _) d o b later =
      listen-Good receive rest s duration d b later
  after_send-Good receive rest duration s (err _) d o b later = ensures_err
  after_send-Good receive rest duration s panic d o b later = elim o [ ]

  run_rounds-Good :
      (oldest : Option ℕ) (rounds : ℕ → Round) (final : List ResponsePacket) (left round : ℕ)
      (s : State)
      → ((n : ℕ) → n < round + left → Each x P (rounds n).arrivals)
      → Each x P final
      → Best P s.best
      → Good P (plain_run_rounds x oldest rounds final left round s).1
  unfolding plain_run_rounds
  run_rounds-Good oldest rounds final zero round s each each_final b =
      elim (Bool-cases (ltb 0 x.policy.final_receive_units)) [
        | inl e ↦ rw e (ensures_ok (receive_final-Best x P final s each_final))
        | inr e ↦ rw e (ensures_ok tt)
      ]
  run_rounds-Good oldest rounds final (suc left) round s each each_final b =
      let r = rounds round in
      let s₁ = (transmit x r.sockets r.sent_at s).0 in
      let b' =
        receive_round-Best x P oldest round r.arrivals s₁ (each round (omega arith))
          (rw (transmit-best x r.sockets r.sent_at s) b) in
      after_send-Good (plain_receive_round x oldest round r.arrivals)
        (plain_run_rounds x oldest rounds final left (round + 1)) (units x.policy.replay_gap round)
        s₁ (transmit x r.sockets r.sent_at s).1 (units_safe x.policy.replay_gap round)
        (transmit_safe r.sockets r.sent_at s) b'
        (run_rounds-Good oldest rounds final left (round + 1) _ (λ n l. each n (omega arith))
          each_final b')

finish-Ensures :
    (x : Exchange) (P : RateLimitResult → Type 0) (env : Environment) (s : State)
    (outcome : Outcome)
    → Good P outcome
    → Ensures P (finish x env (s, outcome)).1
finish-Ensures x P env s (ok none) good = ensures_err
finish-Ensures x P env s (ok (some result)) (ensures_ok p) = steer (env.steering_error result)
  where
    steer : (error : Option CoreError) → Ensures P (after_steering result error)
    steer none = ensures_ok p
    steer (some error) = ensures_err
finish-Ensures x P env s (err _) good = ensures_err
finish-Ensures x P env s panic good = elim good [ ]

-- What the environment delivers in the rounds of the policy, and behind them.
abbrev pub IsArrival : Exchange → Environment → ResponsePacket → Type 0
IsArrival x env packet =
    ((n : ℕ) × (n ≤ x.policy.replay_count) × Memᴰ packet (env.rounds n).arrivals)
    ⊎ Memᴰ packet env.final

-- A result that stands in a delivered packet, from an allowed server.
abbrev pub Delivered : Exchange → Environment → RateLimitResult → Type 0
Delivered x env result =
    (packet : ResponsePacket) × IsArrival x env packet × IsAnswer x packet result

start_best : (P : RateLimitResult → Type 0) (stats : Stats) → Best P (start_state stats).best
unfolding start_state
start_best P stats = tt

-- No step of the rounds panics, and a result that an exchange returns is what the parser, with the client's own
-- authentication, made of a packet that arrived in one of the policy's rounds or in the final
-- receive phase, and its server is one of the allowed ones, if any are named.
pub exchange-answer :
    (x : Exchange) (env : Environment) (stats : Stats)
    → Ensures (Delivered x env) (exchange x env stats).1
unfolding plain_exchange
exchange-answer x env stats = rw (exchange-plain x env stats) (
    let oldest = oldest_server_id x.resolved.allowed_server_ids in
    let run =
      plain_run_rounds x oldest env.rounds env.final (x.policy.replay_count + 1) 0
        (start_state stats) in
    let P = Delivered x env in
    finish-Ensures x P env run.0 run.1 (
      run_rounds-Good x P oldest env.rounds env.final (x.policy.replay_count + 1) 0
        (start_state stats)
        (λ n l packet result m e.
          (packet, inl (n, omega arith, m), accepted-IsAnswer x packet result e))
        (λ packet result m e. (packet, inr m, accepted-IsAnswer x packet result e))
        (start_best P stats)))
