-- ===== src/Client/Report.antt =====
-- `CoreClient::report_latency` in src/client.rs. Whether the list of servers is refreshed, and the
-- targets that it then gives, are the results that come from `_refresh_servers` and `current_targets`.
pub mod Everyone
use rl_rust_client.Common.{
  ℕ, zero, suc, ◌+◌, List, [], ◌∷◌, ◌++◌, length, Bool, ltb, ◌==◌, if◌then◌else◌, Option, none,
  some, Result, ok, err, panic, ◌>>=◌, ◌>>◌,
}
use rl_rust_client.Error.{IoError, IoResult, sent, failed, CoreError, io}
use rl_rust_client.Protocol.{TenantHeader, pdu_latency_report}
use rl_rust_client.Protocol.Cipher.{Cipher}
use rl_rust_client.Protocol.Id.{Hash}
use rl_rust_client.Client.Auth.{AuthMethod}
use rl_rust_client.Client.Packet.{finish_packet}
use rl_rust_client.Client.Request.{ServiceLatencyReport, build_latency_report_body, build_pdu}
use rl_rust_client.Client.Send.{FamilySockets, send_to, push_id}
use rl_rust_client.Client.Servers.{
  SocketAddr, ResolvedTargets, Stats, target_server_id, record_send_failures,
}

-- The packet of the reports.
unfoldable pub report_packet :
    Hash
    → Cipher
    → AuthMethod
    → List ℕ
    → TenantHeader
    → List ServiceLatencyReport
    → Result CoreError (List ℕ)
report_packet hash c method nonce header reports = do
  pdu_body ← build_latency_report_body hash reports
  pdu_data ← build_pdu pdu_latency_report pdu_body
  finish_packet c method nonce header pdu_data

-- The variables of the loop, with the targets to which a datagram was handed in `handed`.
pub record ReportLoop : Type 0 where
  pub delivered : ℕ
  pub last_error : Option IoError
  pub failed_server_ids : List ℕ
  pub handed : List SocketAddr

unfoldable pub start_report : ReportLoop
start_report = record { delivered = 0; last_error = none; failed_server_ids = []; handed = [] }

-- One turn, by the answer of `send_datagram`.
unfoldable pub report_turn : ResolvedTargets → SocketAddr → ReportLoop → IoResult → ReportLoop
report_turn resolved target s (sent _) = record {
  delivered = s.delivered + 1;
  last_error = s.last_error;
  failed_server_ids = s.failed_server_ids;
  handed = s.handed ++ (target ∷ []);
}
report_turn resolved target s (failed error) = record {
  delivered = s.delivered;
  last_error = some error;
  failed_server_ids =
      push_id s.failed_server_ids (target_server_id resolved.target_server_ids target);
  handed = s.handed ++ (target ∷ []);
}

unfoldable pub report_loop :
    FamilySockets → ResolvedTargets → List SocketAddr → ReportLoop → ReportLoop
report_loop sockets resolved [] s = s
report_loop sockets resolved (target ∷ targets) s =
    report_loop sockets resolved targets (report_turn resolved target s (send_to sockets target))

-- What follows the loop: the statistics, and the answer.
unfoldable pub finish_report : Stats → ℕ → ℕ → ReportLoop → Stats × Result CoreError (Unit {0})
finish_report stats now count s =
    if s.delivered == 0
    then (stats, elim s.last_error [ none ↦ ok tt | some error ↦ err (io error) ])
    else if ltb s.delivered count
    then (record_send_failures stats now s.failed_server_ids, ok tt)
    else (stats, ok tt)

-- The sends, by what `report_packet` and `current_targets` answer.
unfoldable pub send_report :
    FamilySockets
    → Stats
    → ℕ
    → Result CoreError ResolvedTargets
    → Stats × List SocketAddr × Result CoreError (Unit {0})
send_report sockets stats now (err e) = (stats, [], err e)
send_report sockets stats now panic = (stats, [], panic)
send_report sockets stats now (ok resolved) =
    let s = report_loop sockets resolved resolved.targets start_report in
    let (stats', outcome) = finish_report stats now (length resolved.targets) s in
    (stats', s.handed, outcome)

-- `report_latency`, with the targets that were sent to. `refreshed` is what the refresh answers,
-- `ok` where none is due.
unfoldable pub report_latency :
    FamilySockets
    → Stats
    → ℕ
    → List ServiceLatencyReport
    → Result CoreError (Unit {0})
    → Result CoreError (List ℕ)
    → Result CoreError ResolvedTargets
    → Stats × List SocketAddr × Result CoreError (Unit {0})
report_latency sockets stats now [] refreshed packet targets = (stats, [], ok tt)
report_latency sockets stats now (report ∷ reports) refreshed packet targets =
    send_report sockets stats now (do _ ← refreshed; _ ← packet; targets)
