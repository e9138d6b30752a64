-- ===== src/Client/Retry/Order.antt =====
-- The exchange of src/client.rs under another order of the `HashSet` of allowed servers.
use rl_rust_client.Common.{
  ℕ, zero, suc, ◌+◌, ◌≡◌, refl, sym, ap, ◌∙◌, List, [], ◌∷◌, Bool, true, false, not, ◌&&◌, ◌||◌,
  ltb, if◌then◌else◌, Option, none, some, Result, ok, err, panic,
}
use rl_rust_client.Error.{ConfigurationError, CoreError, IoResult, sent, failed}
use rl_rust_client.Policy.Schedule.{units}
use rl_rust_client.Client.Response.{RateLimitResult, peek_server_id}
use rl_rust_client.Client.Send.{
  FamilySockets, SendLoop, send_to, responded, attempt, send_loop, start_loop, send_to_missing,
}
use rl_rust_client.Client.Servers.{SocketAddr, Stats, oldest_server_id}
use rl_rust_client.Client.Servers.Oldest.{SameSet, not_empty, oldest_server_id-SameSet}
use rl_rust_client.Client.Retry.{
  Exchange, State, ResponsePacket, Round, Environment, Outcome, is_disallowed, parse_reply, note,
  better, is_server, after_steering, transmit, settle, complete, finish, start_state, exchange,
}
use rl_rust_client.Client.Retry.Plain.{
  plain_checked, plain_accepted, plain_accept, plain_choose, plain_receive_round, plain_take_first,
  plain_receive_final, plain_after_send, final_answer, plain_run_rounds, plain_exchange,
  exchange-plain,
}

-- The exchange with its allowed servers in another list.
abbrev pub in_order : Exchange → List ℕ → Exchange
in_order x ids = record {
  cipher = x.cipher;
  auth_method = x.auth_method;
  policy = x.policy;
  resolved = record {
    targets = x.resolved.targets;
    target_server_ids = x.resolved.target_server_ids;
    allowed_server_ids = ids;
  };
}

is_disallowed-SameSet :
    (ids ids' : List ℕ) (id : ℕ) → SameSet ids ids' → is_disallowed ids id ≡ is_disallowed ids' id
is_disallowed-SameSet [] [] id h = refl
is_disallowed-SameSet [] (y ∷ ys) id h = absurd (not_empty y ys h)
is_disallowed-SameSet (x ∷ xs) [] id h = absurd (not_empty x xs (λ i. sym (h i)))
is_disallowed-SameSet (x ∷ xs) (y ∷ ys) id h = ap not (h id)

checked-SameSet :
    (ids ids' : List ℕ) (peeked : Result CoreError (Option ℕ))
    (parsed : Result CoreError RateLimitResult)
    → SameSet ids ids'
    → plain_checked ids peeked parsed ≡ plain_checked ids' peeked parsed
checked-SameSet ids ids' (ok (some id)) parsed h = rw (is_disallowed-SameSet ids ids' id h) refl
checked-SameSet ids ids' (ok none) parsed h = refl
checked-SameSet ids ids' (err e) parsed h = refl
checked-SameSet ids ids' panic parsed h = refl

-- What a loop ends with depends on what follows it at each state only.
choose_cong :
    (oldest : Option ℕ) (round : ℕ) (rest rest' : State → State)
    (r : State × Option RateLimitResult)
    → ((s : State) → rest s ≡ rest' s)
    → plain_choose oldest round rest r ≡ plain_choose oldest round rest' r
choose_cong oldest round rest rest' (s, none) h = h s
choose_cong oldest round rest rest' (s, some result) h =
    either (is_server oldest result.server_id || ltb 0 round)
  where
    s' : State
    s' = record s { best = better s.best result }

    either : (b : Bool) → (if b then s' else rest s') ≡ (if b then s' else rest' s')
    either true = refl
    either false = h s'

take_first_cong :
    (rest rest' : State → State × Option RateLimitResult) (r : State × Option RateLimitResult)
    → ((s : State) → rest s ≡ rest' s)
    → plain_take_first rest r ≡ plain_take_first rest' r
take_first_cong rest rest' (s, none) h = h s
take_first_cong rest rest' (s, some result) h = refl

settle_cong :
    (rest rest' : State → State × Outcome) (s : State) (o : Option RateLimitResult)
    → ((s : State) → rest s ≡ rest' s)
    → settle rest s o ≡ settle rest' s o
settle_cong rest rest' s none h = h s
settle_cong rest rest' s (some result) h = refl

after_send_cong :
    (receive receive' : State → State) (rest rest' : State → State × Outcome)
    (duration : Result ConfigurationError ℕ) (r : State × Result CoreError (Unit {0}))
    → ((s : State) → receive s ≡ receive' s)
    → ((s : State) → rest s ≡ rest' s)
    → plain_after_send receive rest duration r ≡ plain_after_send receive' rest' duration r
after_send_cong receive receive' rest rest' duration (s, err e) h k = refl
after_send_cong receive receive' rest rest' duration (s, panic) h k = refl
after_send_cong receive receive' rest rest' (err e) (s, ok _) h k = refl
after_send_cong receive receive' rest rest' panic (s, ok _) h k = refl
after_send_cong receive receive' rest rest' (ok d) (s, ok _) h k =
    ap (λ t. settle rest t t.best) (h s) ∙ settle_cong rest rest' (receive' s) (receive' s).best k

-- The sends look at the targets and their ids only.
attempt-in_order :
    (x : Exchange) (order : List ℕ) (target : SocketAddr) (s : SendLoop) (r : IoResult)
    → attempt x.resolved target s r ≡ attempt (in_order x order).resolved target s r
unfolding attempt
attempt-in_order x order target s (sent n) = refl
attempt-in_order x order target s (failed e) = refl

send_loop-in_order :
    (x : Exchange) (order : List ℕ) (sockets : FamilySockets) (ids : List ℕ)
    (addrs targets : List SocketAddr) (s : SendLoop)
    → send_loop sockets x.resolved ids addrs targets s
      ≡ send_loop sockets (in_order x order).resolved ids addrs targets s
unfolding send_loop responded
send_loop-in_order x order sockets ids addrs [] s = refl
send_loop-in_order x order sockets ids addrs (target ∷ targets) s =
    send_loop-in_order x order sockets ids addrs targets _
    ∙ ap
        (λ t.
          send_loop sockets (in_order x order).resolved ids addrs targets
            (if responded x.resolved ids addrs target then s else t))
        (attempt-in_order x order target s (send_to sockets target))

transmit-in_order :
    (x : Exchange) (order : List ℕ) (sockets : FamilySockets) (now : ℕ) (s : State)
    → transmit x sockets now s ≡ transmit (in_order x order) sockets now s
unfolding transmit send_to_missing
transmit-in_order x order sockets now s =
    rw
      (send_loop-in_order x order sockets s.seen_server_ids s.seen_addrs x.resolved.targets
        start_loop)
      refl

module _ (x : Exchange) (order : List ℕ) (same : SameSet x.resolved.allowed_server_ids order) where
  accept-in_order :
      (packet : ResponsePacket) (s : State)
      → plain_accept x packet s ≡ plain_accept (in_order x order) packet s
  unfolding plain_accept plain_accepted
  accept-in_order packet s = ap (note packet s) (
      checked-SameSet x.resolved.allowed_server_ids order (peek_server_id packet.bytes)
        (parse_reply x packet.bytes) same)

  receive_round-in_order :
      (oldest : Option ℕ) (round : ℕ) (packets : List ResponsePacket) (s : State)
      → plain_receive_round x oldest round packets s
        ≡ plain_receive_round (in_order x order) oldest round packets s
  unfolding plain_receive_round
  receive_round-in_order oldest round [] s = refl
  receive_round-in_order oldest round (packet ∷ packets) s =
      ap (plain_choose oldest round (plain_receive_round x oldest round packets))
        (accept-in_order packet s)
      ∙ choose_cong oldest round _ _ (plain_accept (in_order x order) packet s)
          (receive_round-in_order oldest round packets)

  receive_final-in_order :
      (packets : List ResponsePacket) (s : State)
      → plain_receive_final x packets s ≡ plain_receive_final (in_order x order) packets s
  unfolding plain_receive_final
  receive_final-in_order [] s = refl
  receive_final-in_order (packet ∷ packets) s =
      ap (plain_take_first (plain_receive_final x packets)) (accept-in_order packet s)
      ∙ take_first_cong _ _ (plain_accept (in_order x order) packet s)
          (receive_final-in_order packets)

  run_rounds-in_order :
      (oldest : Option ℕ) (rounds : ℕ → Round) (final : List ResponsePacket) (left round : ℕ)
      (s : State)
      → plain_run_rounds x oldest rounds final left round s
        ≡ plain_run_rounds (in_order x order) oldest rounds final left round s
  unfolding plain_run_rounds
  run_rounds-in_order oldest rounds final zero round s =
      ap (λ r. if ltb 0 x.policy.final_receive_units then final_answer r else (s, ok none))
        (receive_final-in_order final s)
  run_rounds-in_order oldest rounds final (suc left) round s =
      let r = rounds round in
      let rest = plain_run_rounds x oldest rounds final left (round + 1) in
      let rest' = plain_run_rounds (in_order x order) oldest rounds final left (round + 1) in
      let duration = units x.policy.replay_gap round in
      ap (plain_after_send (plain_receive_round x oldest round r.arrivals) rest duration)
        (transmit-in_order x order r.sockets r.sent_at s)
      ∙ after_send_cong (plain_receive_round x oldest round r.arrivals)
          (plain_receive_round (in_order x order) oldest round r.arrivals) rest rest' duration
          (transmit (in_order x order) r.sockets r.sent_at s)
          (receive_round-in_order oldest round r.arrivals)
          (run_rounds-in_order oldest rounds final left (round + 1))

  complete-in_order :
      (in_time : Bool) (sockets : FamilySockets) (now : ℕ) (s : State)
      → complete x in_time sockets now s ≡ complete (in_order x order) in_time sockets now s
  unfolding complete
  complete-in_order in_time sockets now s =
      ap (λ r. if x.policy.completion_delivery && in_time then r.0 else s)
        (transmit-in_order x order sockets now s)

  finish-in_order :
      (env : Environment) (r : State × Outcome) → finish x env r ≡ finish (in_order x order) env r
  finish-in_order env (s, err e) = refl
  finish-in_order env (s, panic) = refl
  finish-in_order env (s, ok none) = refl
  finish-in_order env (s, ok (some result)) =
      ap (λ t. (t, after_steering result (env.steering_error result)))
        (complete-in_order env.in_time env.completion_sockets env.completion_at s)

-- The order in which the `HashSet` of the allowed servers is iterated does not matter: with the same
-- servers in another list an exchange sends the same, answers the same, and leaves the same
-- statistics.
pub exchange-SameSet :
    (x : Exchange) (order : List ℕ) (env : Environment) (stats : Stats)
    → SameSet x.resolved.allowed_server_ids order
    → exchange x env stats ≡ exchange (in_order x order) env stats
unfolding plain_exchange
exchange-SameSet x order env stats same =
    let rounds = x.policy.replay_count + 1 in
    let oldest = oldest_server_id x.resolved.allowed_server_ids in
    exchange-plain x env stats
    ∙ finish-in_order x order same env
        (plain_run_rounds x oldest env.rounds env.final rounds 0 (start_state stats))
    ∙ ap (finish (in_order x order) env) (
        run_rounds-in_order x order same oldest env.rounds env.final rounds 0 (start_state stats)
        ∙ ap
            (λ first.
              plain_run_rounds (in_order x order) first env.rounds env.final rounds 0
                (start_state stats))
            (oldest_server_id-SameSet x.resolved.allowed_server_ids order same))
    ∙ sym (exchange-plain (in_order x order) env stats)
