-- ===== src/Tests/Network.antt =====
-- Targets from the resolver, sockets by family, and latency reports.
use rl_rust_client.Common.{
  ℕ, ◌≡◌, ◌⊎◌, ◌↔◌, refl, List, [], ◌∷◌, false, ◌==◌, if◌then◌else◌, Option, none, some, ok, err,
  Ensures, ensures_ok, ensures_err,
}
use rl_rust_client.Error.{timeout, text}
use rl_rust_client.Client.Request.{ServiceLatencyReport}
use rl_rust_client.Client.Report.{report_latency}
use rl_rust_client.Client.Report.Everyone.{to_everyone, report_latency-send_to_missing}
use rl_rust_client.Client.Servers.{ResolvedTargets}
use rl_rust_client.Client.Sockets.{bind_families, poll_families}
use rl_rust_client.Client.Sockets.Families.{
  HasSocket, local_socket-bind_families, poll_families_fair,
}
use rl_rust_client.ApiKey.Bech32.{Text}
use rl_rust_client.Client.Targets.{
  IpAddr, ip4, ip6, Resolver, parse_decimal, parse_server_id_from_target, refresh_servers,
  current_targets,
}
use rl_rust_client.Client.Targets.Ids.{IsPrinted, AllServed, current_targets-AllServed}
use rl_rust_client.Client.Targets.Labels.{IsServerTarget, parse_server_id_from_target_lem}
use rl_rust_client.Tests.Exchange.{test_sockets, test_targets}

abbrev test_name : Text
test_name = b'S' ∷ b'-' ∷ b'4' ∷ b'2' ∷ b'.' ∷ b'i' ∷ b'o' ∷ b'.' ∷ []

parse_server_id_from_target_lem_example :
    (parse_server_id_from_target test_name ≡ some 42) ↔ IsServerTarget test_name 42
parse_server_id_from_target_lem_example = parse_server_id_from_target_lem test_name 42

-- The names that the repository's test rejects.
rejected_names :
    (parse_server_id_from_target (b'r' ∷ b'l' ∷ b'.' ∷ b'u' ∷ b's' ∷ []) ≡ none)
    × (parse_server_id_from_target (b's' ∷ b'-' ∷ b'.' ∷ b'r' ∷ b'l' ∷ []) ≡ none)
    × (parse_server_id_from_target (b's' ∷ b'-' ∷ b'x' ∷ b'.' ∷ b'r' ∷ b'l' ∷ []) ≡ none)
    × (parse_server_id_from_target (b's' ∷ b'-' ∷ b'0' ∷ b'1' ∷ b'.' ∷ b'r' ∷ []) ≡ none)
unfolding parse_server_id_from_target parse_decimal
rejected_names = (refl, refl, refl, refl)

-- An address is printed as its number, behind the family.
abbrev read_ip : List ℕ → Option IpAddr
read_ip (family ∷ (ip ∷ [])) = if family == 4 then some (ip4 ip) else some (ip6 ip)
read_ip _ = none

abbrev print_ip : IpAddr → List ℕ
print_ip (ip4 ip) = 4 ∷ ip ∷ []
print_ip (ip6 ip) = 6 ∷ ip ∷ []

abbrev pub test_resolver : Resolver
test_resolver = record {
  srv_lookup =
      λ name. some (record { target = b's' ∷ b'-' ∷ b'5' ∷ b'.' ∷ []; srv_port = 80 } ∷ []);
  lookup_ip = λ name. some (ip4 1 ∷ ip6 1 ∷ []);
  lookup_error = text "no such name";
  print_ip = print_ip;
  parse_ip = read_ip;
}

test_resolver-IsPrinted : IsPrinted test_resolver
test_resolver-IsPrinted (ip4 ip) = refl
test_resolver-IsPrinted (ip6 ip) = refl

current_targets-AllServed_example :
    Ensures
      (λ servers.
        (out : ResolvedTargets) × (current_targets test_resolver servers ≡ ok out) × AllServed out)
      (refresh_servers test_resolver (b'i' ∷ b'o' ∷ []))
current_targets-AllServed_example =
    current_targets-AllServed test_resolver test_resolver-IsPrinted (b'i' ∷ b'o' ∷ [])

local_socket-bind_families_example : Ensures (HasSocket ℕ) (bind_families (err timeout) (ok 7))
local_socket-bind_families_example =
    local_socket-bind_families ℕ (err timeout) (ok 7) ensures_err (ensures_ok tt)

poll_families_fair_example :
    (let (flag, first) = poll_families {A = ℕ} false (some 3) (some 4) in
      (first ≡ some 3) ⊎ ((poll_families {A = ℕ} flag (some 3) (some 5)).1 ≡ some 3))
    × (let (flag, first) = poll_families {A = ℕ} false (some 4) (some 3) in
        (first ≡ some 3) ⊎ ((poll_families {A = ℕ} flag (some 5) (some 3)).1 ≡ some 3))
poll_families_fair_example = poll_families_fair false 3 (some 4) (some 5)

abbrev test_report : ServiceLatencyReport
test_report = record {
  latency_tracker_name = b'a' ∷ [];
  observed_latency = 12;
  ttl_ms = 1000;
  max_samples = 10;
  min_sample_threshold = 2;
}

report_latency-send_to_missing_example :
    (report_latency test_sockets [] 0 [] (ok tt) (ok (1 ∷ [])) (ok test_targets) ≡ ([], [], ok tt))
    × (report_latency test_sockets [] 0 (test_report ∷ []) (ok tt) (ok (1 ∷ [])) (ok test_targets)
        ≡ to_everyone test_sockets [] 0 (ok test_targets))
report_latency-send_to_missing_example =
    report_latency-send_to_missing test_sockets [] 0 test_report [] (ok tt) (ok (1 ∷ []))
      (ok test_targets)
