-- ===== src/Tests/Exchange.antt =====
-- An exchange with two servers, of which one is reached.
use rl_rust_client.Common.{
  ◌≤◌, ◌≡◌, refl, Bool, ◌||◌, ◌==◌, [], ◌∷◌, true, false, none, some, ok, Ensures,
}
use mathlib.Core.List.{Memᴰ}
use rl_rust_client.Error.{sent}
use rl_rust_client.Policy.Schedule.{units, units_of, fixed}
use rl_rust_client.Policy.Request.{default_policy}
use rl_rust_client.Client.Auth.{AuthMethod}
use rl_rust_client.Client.Response.{RateLimitResult}
use rl_rust_client.Client.Response.Wire.{expected_result}
use rl_rust_client.Client.Servers.{
  v4, v6, ResolvedTargets, same_addr, has_id, compare_server_age, target_server_id,
}
use rl_rust_client.Client.Servers.Age.{compare_server_age_lem}
use rl_rust_client.Client.Send.{
  FamilySockets, responded, send_to, send_loop, start_loop, attempt, finish_send, send_to_missing,
}
use rl_rust_client.Client.Retry.{
  Exchange, ResponsePacket, Environment, exchange, transmit, start_state,
}
use rl_rust_client.Client.Retry.Answer.{Delivered, exchange-answer}
use rl_rust_client.Client.Servers.Oldest.{SameSet}
use rl_rust_client.Client.Retry.Order.{in_order, exchange-SameSet}
use rl_rust_client.Client.Retry.Choice.{exchange-oldest}
use rl_rust_client.Tests.{test_cipher}
use rl_rust_client.Tests.Packets.{test_blocks, plain_packet, parse_plain-packet}
use Prim.Native.Nat.{Ordering}

-- A host without IPv6: the second server is not reached.
abbrev pub test_sockets : FamilySockets
test_sockets = record { socket_v4 = some (λ target. sent 60); socket_v6 = none }

abbrev pub test_targets : ResolvedTargets
test_targets = record {
  targets = v4 1 80 ∷ v6 1 80 0 0 ∷ [];
  target_server_ids = (v4 1 80, 5) ∷ (v6 1 80 0 0, 9) ∷ [];
  allowed_server_ids = 9 ∷ 5 ∷ [];
}

abbrev test_exchange : Exchange
test_exchange = record {
  cipher = test_cipher;
  auth_method = AuthMethod.none;
  policy = default_policy;
  resolved = test_targets;
}

abbrev test_packet : ResponsePacket
test_packet = record { bytes = plain_packet 5; addr = v4 1 80; at = 3 }

abbrev stray_packet : ResponsePacket
stray_packet = record { bytes = 1 ∷ 2 ∷ []; addr = v4 7 80; at = 2 }

abbrev pub test_environment : Environment
test_environment = record {
  rounds = λ n. record {
    sockets = test_sockets;
    sent_at = n;
    arrivals = stray_packet ∷ test_packet ∷ [];
  };
  final = [];
  in_time = true;
  completion_sockets = test_sockets;
  completion_at = 9;
  steering_error = λ result. none;
}

compare_server_age_lem_example : compare_server_age 5 9 ≡ Ordering.lt
compare_server_age_lem_example = compare_server_age_lem 5 9

exchange-answer_example :
    Ensures
      (Delivered test_exchange test_environment)
      (exchange test_exchange test_environment []).1
exchange-answer_example = exchange-answer test_exchange test_environment []

exchange-oldest_example :
    (chosen : RateLimitResult) × ((exchange test_exchange test_environment []).1 ≡ ok chosen)
    × (chosen.server_id ≤ 5)
unfolding same_addr transmit start_state send_to_missing send_loop start_loop attempt finish_send
    responded has_id target_server_id send_to units units_of fixed default_policy
exchange-oldest_example =
    exchange-oldest test_exchange test_environment [] test_packet
      (expected_result test_blocks 5 true) 1 refl refl (Memᴰ.tail (Memᴰ.head refl))
      (parse_plain-packet, refl) (λ r. refl)

same_set : SameSet (9 ∷ 5 ∷ []) (5 ∷ 9 ∷ [])
unfolding has_id
same_set id = or_comm (9 == id) (5 == id)
  where
    or_comm : (a b : Bool) → (a || (b || false)) ≡ (b || (a || false))
    or_comm true true = refl
    or_comm true false = refl
    or_comm false true = refl
    or_comm false false = refl

exchange-SameSet_example :
    exchange test_exchange test_environment []
    ≡ exchange (in_order test_exchange (5 ∷ 9 ∷ [])) test_environment []
exchange-SameSet_example = exchange-SameSet test_exchange (5 ∷ 9 ∷ []) test_environment [] same_set
