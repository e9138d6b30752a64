-- ===== src/Client/Report/Everyone.antt =====
-- Whom `report_latency` of src/client.rs sends to, and what it answers.
use rl_rust_client.Common.{
  ℕ, ◌+◌, ◌≡◌, refl, ap, arith, List, [], ◌∷◌, ◌++◌, length, false, Option, none, some, Result, ok,
  err, panic, ◌>>=◌,
}
use rl_rust_client.Error.{IoResult, sent, failed, CoreError}
use rl_rust_client.Client.Send.{
  FamilySockets, send_to, responded, SendLoop, start_loop, attempt, send_loop, finish_send,
  send_to_missing,
}
use rl_rust_client.Client.Request.{ServiceLatencyReport}
use rl_rust_client.Client.Servers.{
  SocketAddr, ResolvedTargets, Stats, has_id, has_addr, target_server_id,
}
use rl_rust_client.Client.Report.{
  ReportLoop, start_report, report_turn, report_loop, finish_report, send_report, report_latency,
}

-- The variables of the two loops of the client agree, after `n` turns.
record Agree (s : ReportLoop) (e : SendLoop) (n : ℕ) : Type 0 where
  same_delivered : s.delivered ≡ e.delivered
  same_error : s.last_error ≡ e.last_error
  same_failed : s.failed_server_ids ≡ e.failed_server_ids
  same_handed : s.handed ≡ e.log
  turns : e.attempted ≡ n

nobody_responded :
    (resolved : ResolvedTargets) (t : SocketAddr) → responded resolved [] [] t ≡ false
unfolding responded has_id has_addr
nobody_responded resolved t = either (target_server_id resolved.target_server_ids t)
  where
    either : (o : Option ℕ) → elim o [ none ↦ has_addr [] t | some id ↦ has_id [] id ] ≡ false
    either none = refl
    either (some id) = refl

Agree-turn :
    (resolved : ResolvedTargets) (t : SocketAddr) (s : ReportLoop) (e : SendLoop) (n : ℕ)
    (r : IoResult)
    → Agree s e n
    → Agree (report_turn resolved t s r) (attempt resolved t e r) (n + 1)
unfolding report_turn attempt
Agree-turn resolved t s e n (sent k) h = record {
  same_delivered = ap (λ x. x + 1) h.same_delivered;
  same_error = h.same_error;
  same_failed = h.same_failed;
  same_handed = ap (λ l. l ++ (t ∷ [])) h.same_handed;
  turns = ap (λ x. x + 1) h.turns;
}
Agree-turn resolved t s e n (failed error) h = record {
  same_delivered = h.same_delivered;
  same_error = refl;
  same_failed = rw h.same_failed refl;
  same_handed = ap (λ l. l ++ (t ∷ [])) h.same_handed;
  turns = ap (λ x. x + 1) h.turns;
}

Agree-loop :
    (sockets : FamilySockets) (resolved : ResolvedTargets) (ts : List SocketAddr) (s : ReportLoop)
    (e : SendLoop) (n : ℕ)
    → Agree s e n
    → Agree
        (report_loop sockets resolved ts s)
        (send_loop sockets resolved [] [] ts e)
        (n + length ts)
unfolding report_loop send_loop
Agree-loop sockets resolved [] s e n h = record {
  same_delivered = h.same_delivered;
  same_error = h.same_error;
  same_failed = h.same_failed;
  same_handed = h.same_handed;
  turns = omega (arith, h.turns);
}
Agree-loop sockets resolved (t ∷ ts) s e n h =
    let r = send_to sockets t in
    let next =
      Agree-loop sockets resolved ts (report_turn resolved t s r) (attempt resolved t e r) (n + 1)
        (Agree-turn resolved t s e n r h) in
    rw (nobody_responded resolved t) (record {
      same_delivered = next.same_delivered;
      same_error = next.same_error;
      same_failed = next.same_failed;
      same_handed = next.same_handed;
      turns = omega (arith, next.turns);
    })

Agree-finish :
    (stats : Stats) (now n : ℕ) (s : ReportLoop) (e : SendLoop)
    → Agree s e n
    → finish_report stats now n s ≡ finish_send stats now e
unfolding finish_report finish_send
Agree-finish stats now n s e h = rw (h.same_delivered, h.same_error, h.same_failed, h.turns) refl

-- The sends of `send_to_missing` when nobody has answered, by what the steps before it answer.
abbrev pub to_everyone :
    FamilySockets
    → Stats
    → ℕ
    → Result CoreError ResolvedTargets
    → Stats × List SocketAddr × Result CoreError (Unit {0})
to_everyone sockets stats now (ok resolved) = send_to_missing sockets resolved [] [] stats now
to_everyone sockets stats now (err e) = (stats, [], err e)
to_everyone sockets stats now panic = (stats, [], panic)

at_start : Agree start_report start_loop 0
unfolding start_report start_loop
at_start = record {
  same_delivered = refl;
  same_error = refl;
  same_failed = refl;
  same_handed = refl;
  turns = refl;
}

send_report_lem :
    (sockets : FamilySockets) (stats : Stats) (now : ℕ) (r : Result CoreError ResolvedTargets)
    → send_report sockets stats now r ≡ to_everyone sockets stats now r
unfolding send_report send_to_missing
send_report_lem sockets stats now (err e) = refl
send_report_lem sockets stats now panic = refl
send_report_lem sockets stats now (ok resolved) =
    let s = report_loop sockets resolved resolved.targets start_report in
    let e = send_loop sockets resolved [] [] resolved.targets start_loop in
    let agree = Agree-loop sockets resolved resolved.targets start_report start_loop 0 at_start in
    let agree_count : Agree s e (length resolved.targets) = record {
      same_delivered = agree.same_delivered;
      same_error = agree.same_error;
      same_failed = agree.same_failed;
      same_handed = agree.same_handed;
      turns = omega (arith, agree.turns);
    } in
    rw (Agree-finish stats now (length resolved.targets) s e agree_count, agree.same_handed) refl

-- With no report `report_latency` does nothing and succeeds. With reports it hands the packet to the
-- targets, answers, and counts the failures exactly as `send_to_missing` does when nobody has
-- answered; if the refresh, the packet or the targets fail, in this order, it sends nothing and
-- answers their error.
pub report_latency-send_to_missing :
    (sockets : FamilySockets) (stats : Stats) (now : ℕ) (report : ServiceLatencyReport)
    (reports : List ServiceLatencyReport) (refreshed : Result CoreError (Unit {0}))
    (packet : Result CoreError (List ℕ)) (targets : Result CoreError ResolvedTargets)
    → (report_latency sockets stats now [] refreshed packet targets ≡ (stats, [], ok tt))
      × (report_latency sockets stats now (report ∷ reports) refreshed packet targets
          ≡ to_everyone sockets stats now (do _ ← refreshed; _ ← packet; targets))
unfolding report_latency
report_latency-send_to_missing sockets stats now report reports refreshed packet targets =
    (refl, same _)
  where
    same :
        (r : Result CoreError ResolvedTargets)
        → send_report sockets stats now r ≡ to_everyone sockets stats now r
    same r = send_report_lem sockets stats now r
