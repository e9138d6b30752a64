-- ===== src/PublicClient/Report.antt =====
-- `Client::report_latency` in src/public_client.rs.
use rl_rust_client.Common.{ℕ, ◌≡◌, sym, ap, ◌∙◌, List, [], ◌∷◌, Result, ok, err, panic, map_err}
use rl_rust_client.Duration.{Duration, duration_to_u32_ms}
use rl_rust_client.Error.{CoreError, Error, invalid_configuration, from_core_error}
use rl_rust_client.Model.{LatencyTracker}
use rl_rust_client.Model.Valid.{IsTracker}
use rl_rust_client.Client.Request.Layout.{IsHash, derive_content_id_lem}
use rl_rust_client.Protocol.Id.{latency_tracker_id_domain, Hash, derive_latency_tracker_id}
use rl_rust_client.Client.Request.{ServiceLatencyReport}
use rl_rust_client.Client.Servers.{SocketAddr, Stats}

-- The report that is made of a tracker.
abbrev pub report_of : LatencyTracker → ℕ → ServiceLatencyReport
report_of tracker observed_latency = record {
  latency_tracker_name = tracker.name;
  observed_latency = observed_latency;
  ttl_ms = tracker.sample_ttl_ms;
  max_samples = tracker.max_samples;
  min_sample_threshold = tracker.min_samples;
}

-- What the core answers to some reports: the statistics, the targets that were sent to, the result.
abbrev pub CoreReport : Type 0
CoreReport = List ServiceLatencyReport → Stats × List SocketAddr × Result CoreError (Unit {0})

abbrev pub report_answer :
    Stats × List SocketAddr × Result CoreError (Unit {0})
    → Stats × List SocketAddr × Result Error (Unit {0})
report_answer (stats, handed, answer) = (stats, handed, map_err from_core_error answer)

-- By what the check of the latency answers.
abbrev pub report_checked :
    CoreReport
    → Stats
    → LatencyTracker
    → Result Error ℕ
    → Stats × List SocketAddr × Result Error (Unit {0})
report_checked core stats tracker (ok observed_latency) =
    report_answer (core (report_of tracker observed_latency ∷ []))
report_checked core stats tracker (err e) = (stats, [], err e)
report_checked core stats tracker panic = (stats, [], panic)

unfoldable pub public_report_latency :
    CoreReport
    → Stats
    → LatencyTracker
    → Duration
    → Stats × List SocketAddr × Result Error (Unit {0})
public_report_latency core stats tracker observed =
    report_checked core stats tracker
      (map_err invalid_configuration (duration_to_u32_ms observed "observed latency"))

-- The id in the report of a tracker that the builder made is that tracker's, under a hash of 32 bytes.
pub report_id :
    (hash : Hash) (tracker : LatencyTracker) (ms : ℕ)
    → IsHash hash
    → IsTracker hash tracker
    → let report = report_of tracker ms in
      derive_latency_tracker_id {E = CoreError} hash report.latency_tracker_name report.ttl_ms
        report.max_samples report.min_sample_threshold
      ≡ ok tracker.id
unfolding derive_latency_tracker_id
report_id hash tracker ms h v =
    derive_content_id_lem hash latency_tracker_id_domain tracker.name
      (tracker.sample_ttl_ms ∷ tracker.max_samples ∷ tracker.min_samples ∷ []) h v.name_fits
    ∙ ap ok (sym v.names_content)
