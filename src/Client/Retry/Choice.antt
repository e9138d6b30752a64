-- ===== src/Client/Retry/Choice.antt =====
-- The choice among the answers of the first round of an exchange of src/client.rs.
use rl_rust_client.Common.{
  ℕ, suc, ◌+◌, ◌≤◌, ◌≡◌, refl, subst, sym, ap, ◌∙◌, arith, List, [], ◌∷◌, All, Bool, true, false,
  not, ◌||◌, ◌==◌, ltb, Bool-cases, inl, inr, Option, none, some, Option-cases, Result, ok, ==_iff,
}
use mathlib.Core.List.{Memᴰ}
use mathlib.Core.List.Memᴰ
use rl_rust_client.Error.{CoreError, ConfigurationError}
use rl_rust_client.Policy.Schedule.{units}
use rl_rust_client.Client.Response.{RateLimitResult}
use rl_rust_client.Client.Servers.{has_id, oldest_from, oldest_server_id, Stats}
use rl_rust_client.Client.Servers.Age.{is_older_lem, oldest_from-le}
use rl_rust_client.Client.Retry.{
  Exchange, ResponsePacket, State, Round, Environment, is_disallowed, better, is_server, transmit,
  Outcome, exchange, start_state, settle, finish,
}
use rl_rust_client.Client.Retry.Plain.{
  plain_accepted, plain_receive_round, plain_run_rounds, plain_after_send, plain_exchange,
  exchange-plain,
}
use rl_rust_client.Client.Retry.Accept.{
  IsAnswer, IsAnswer-accepted, kept, receive_round-rejected, receive_round-accepted,
}

some-eq : {r r' : RateLimitResult} → some r ≡ some r' → r ≡ r'
some-eq e = cc

none-some : {r : RateLimitResult} → ◌≡◌ {A = Option RateLimitResult} none (some r) → ⊥
none-some e = absurd (cc)

-- The chosen result is from a server at least as old as `id`.
abbrev Covers : Option RateLimitResult → ℕ → Type 0
Covers none id = ⊥
Covers (some best) id = best.server_id ≤ id

Covers-better :
    (best : Option RateLimitResult) (result : RateLimitResult) (id : ℕ)
    → Covers best id
    → Covers (better best result) id
unfolding better
Covers-better (some best) result id c =
    rw (is_older_lem result.server_id best.server_id)
      (elim (Bool-cases (ltb result.server_id best.server_id)) [
        | inl e ↦ rw e (ground arith)
        | inr e ↦ rw e c
      ])
Covers-better none result id c = absurd c

Covers-new :
    (best : Option RateLimitResult) (result : RateLimitResult)
    → Covers (better best result) result.server_id
unfolding better
Covers-new (some best) result =
    rw (is_older_lem result.server_id best.server_id)
      (elim (Bool-cases (ltb result.server_id best.server_id)) [
        | inl e ↦ rw e (omega arith)
        | inr e ↦ rw e (ground arith)
      ])
Covers-new none result = omega arith

Covers-le :
    (best : Option RateLimitResult) (id id' : ℕ) → Covers best id → id ≤ id' → Covers best id'
Covers-le (some best) id id' c l = omega (arith, c, l)
Covers-le none id id' c l = absurd c

-- No allowed server is older than the oldest one.
has_id-oldest :
    (a : ℕ) (ids : List ℕ) (id : ℕ) → All (λ i. a ≤ i) ids → has_id ids id ≡ true → a ≤ id
unfolding has_id
has_id-oldest a [] id below h = absurd (cc)
has_id-oldest a (i ∷ ids) id (l, below) h = elim (Bool-cases (i == id)) [
  | inl e ↦ subst (λ n. a ≤ n) ((==_iff i id).0 e) l
  | inr e ↦ has_id-oldest a ids id below (else_true (i == id) (has_id ids id) e h)
]
  where
    else_true : (b c : Bool) → b ≡ false → (b || c) ≡ true → c ≡ true
    else_true true c e h = absurd (cc)
    else_true false c e h = h

not-false : (b : Bool) → not b ≡ false → b ≡ true
not-false true e = refl
not-false false e = absurd (cc)

oldest-allowed :
    (allowed : List ℕ) (oldest id : ℕ)
    → is_server (oldest_server_id allowed) oldest ≡ true
    → is_disallowed allowed id ≡ false
    → oldest ≤ id
unfolding oldest_server_id has_id
oldest-allowed [] oldest id s d = absurd (cc)
oldest-allowed (a ∷ allowed) oldest id s d =
    let (first, others) = oldest_from-le a allowed in
    subst (λ n. n ≤ id) ((==_iff (oldest_from a allowed) oldest).0 s)
      (has_id-oldest (oldest_from a allowed) (a ∷ allowed) id (first, others)
        (not-false (has_id (a ∷ allowed) id) d))

module _ (x : Exchange) where
  -- What was covered stays covered.
  receive_round-Covers :
      (oldest : Option ℕ) (round : ℕ) (packets : List ResponsePacket) (s : State) (id : ℕ)
      → Covers s.best id
      → Covers (plain_receive_round x oldest round packets s).best id
  unfolding plain_receive_round
  receive_round-Covers oldest round [] s id c = c
  receive_round-Covers oldest round (packet ∷ packets) s id c =
      elim (Option-cases (plain_accepted x packet)) [
        | inl e ↦
            rw (receive_round-rejected x packet packets s oldest round e)
              (receive_round-Covers oldest round packets s id c)
        | inr (result, e) ↦
            let c' = Covers-better s.best result id c in
            rw (receive_round-accepted x packet packets s oldest round result e)
              (elim (Bool-cases (is_server oldest result.server_id || ltb 0 round)) [
                | inl stop ↦ rw stop c'
                | inr go ↦ rw go (receive_round-Covers oldest round packets _ id c')
              ])
      ]

  -- In the first round every answer is covered, also those that the loop no longer looks at.
  first_round-Covers :
      (packets : List ResponsePacket) (s : State) (packet : ResponsePacket)
      (result : RateLimitResult)
      → Memᴰ packet packets
      → IsAnswer x packet result
      → Covers
          (plain_receive_round x (oldest_server_id x.resolved.allowed_server_ids) 0 packets s).best
          result.server_id
  first_round-Covers [] s packet result m a = elim m [ ]
  first_round-Covers (p ∷ packets) s packet result m a =
      let oldest = oldest_server_id x.resolved.allowed_server_ids in
      elim (Option-cases (plain_accepted x p)) [
        | inl e ↦ rw (receive_round-rejected x p packets s oldest 0 e) (elim (Memᴰ.cases_cons m) [
          | inl same ↦ absurd (
              none-some
                (sym e ∙ ap (plain_accepted x) (sym same) ∙ IsAnswer-accepted x packet result a))
          | inr later ↦ first_round-Covers packets s packet result later a
        ])
        | inr (r, e) ↦
            rw (receive_round-accepted x p packets s oldest 0 r e)
              (elim (Bool-cases (is_server oldest r.server_id)) [
                | inl stop ↦ rw stop (
                    Covers-le (better s.best r) r.server_id result.server_id (Covers-new s.best r) (
                      oldest-allowed x.resolved.allowed_server_ids r.server_id result.server_id stop
                        a.1))
                | inr go ↦ rw go (elim (Memᴰ.cases_cons m) [
                  | inl same ↦ receive_round-Covers oldest 0 packets (kept p r s) result.server_id (
                      subst (λ i. Covers (better s.best r) i.server_id)
                        (some-eq (
                          sym e
                          ∙ ap (plain_accepted x) (sym same)
                          ∙ IsAnswer-accepted x packet result a))
                        (Covers-new s.best r))
                  | inr later ↦ first_round-Covers packets (kept p r s) packet result later a
                ])
              ])
      ]

settle-some :
    (rest : State → State × Outcome) (s : State) (id : ℕ) (best : Option RateLimitResult)
    → Covers best id
    → (b : RateLimitResult) × ((settle rest s best).1 ≡ ok (some b)) × (b.server_id ≤ id)
settle-some rest s id (some b) c = (b, refl, c)
settle-some rest s id none c = absurd c

finish-some :
    (x : Exchange) (env : Environment) (s : State) (outcome : Outcome) (b : RateLimitResult)
    → outcome ≡ ok (some b)
    → env.steering_error b ≡ none
    → (finish x env (s, outcome)).1 ≡ ok b
finish-some x env s outcome b e h = rw (e, h) refl

after_send-ok :
    (receive : State → State) (rest : State → State × Outcome)
    (duration : Result ConfigurationError ℕ) (units : ℕ) (s : State)
    (outcome : Result CoreError (Unit {0}))
    → outcome ≡ ok tt
    → duration ≡ ok units
    → plain_after_send receive rest duration (s, outcome) ≡ settle rest (receive s) (receive s).best
after_send-ok receive rest duration units s outcome e d = rw (e, d) refl

run_rounds-oldest :
    (x : Exchange) (rounds : ℕ → Round) (final : List ResponsePacket) (left : ℕ) (s : State)
    (packet : ResponsePacket) (result : RateLimitResult) (duration : ℕ)
    → (transmit x (rounds 0).sockets (rounds 0).sent_at s).1 ≡ ok tt
    → units x.policy.replay_gap 0 ≡ ok duration
    → Memᴰ packet (rounds 0).arrivals
    → IsAnswer x packet result
    → (chosen : RateLimitResult) × ((plain_run_rounds x
          (oldest_server_id x.resolved.allowed_server_ids)
          rounds
          final
          (suc left)
          0
          s).1
        ≡ ok (some chosen))
      × (chosen.server_id ≤ result.server_id)
unfolding plain_run_rounds
run_rounds-oldest x rounds final left s packet result duration sent units_ok m a =
    let oldest = oldest_server_id x.resolved.allowed_server_ids in
    let receive = plain_receive_round x oldest 0 (rounds 0).arrivals in
    let rest = plain_run_rounds x oldest rounds final left 1 in
    let (s', outcome) = transmit x (rounds 0).sockets (rounds 0).sent_at s in
    let (chosen, e, l) =
      settle-some rest (receive s') result.server_id (receive s').best
        (first_round-Covers x (rounds 0).arrivals s' packet result m a) in
    (
      chosen,
      ap (λ p. p.1)
            (after_send-ok receive rest (units x.policy.replay_gap 0) duration s' outcome sent
              units_ok)
          ∙ e,
      l,
    )

-- If the first sends go out, the schedule gives the first round a length, and applying the steering
-- feedback fails for no result, then for every answer that arrives in the first round there is a
-- result that the exchange returns, and its server is at least as old: among the answers of the first round, the oldest server's is chosen, whatever
-- their order, also where the loop stops early.
pub exchange-oldest :
    (x : Exchange) (env : Environment) (stats : Stats) (packet : ResponsePacket)
    (result : RateLimitResult) (duration : ℕ)
    → (transmit x (env.rounds 0).sockets (env.rounds 0).sent_at (start_state stats)).1 ≡ ok tt
    → units x.policy.replay_gap 0 ≡ ok duration
    → Memᴰ packet (env.rounds 0).arrivals
    → IsAnswer x packet result
    → ((r : RateLimitResult) → env.steering_error r ≡ none)
    → (chosen : RateLimitResult) × ((exchange x env stats).1 ≡ ok chosen)
      × (chosen.server_id ≤ result.server_id)
unfolding plain_exchange
exchange-oldest x env stats packet result duration sent units_ok m a steered =
    rw (exchange-plain x env stats) (
      let oldest = oldest_server_id x.resolved.allowed_server_ids in
      let run : ℕ → State × Outcome =
        λ n. plain_run_rounds x oldest env.rounds env.final n 0 (start_state stats) in
      let (chosen, e, l) =
        run_rounds-oldest x env.rounds env.final x.policy.replay_count (start_state stats) packet
          result duration sent units_ok m a in
      let one_more : suc x.policy.replay_count ≡ x.policy.replay_count + 1 = omega arith in
      let run' = run (x.policy.replay_count + 1) in
      (
        chosen,
        finish-some x env run'.0 run'.1 chosen (ap (λ n. (run n).1) (sym one_more) ∙ e)
            (steered chosen),
        l,
      ))
