-- ===== src/Tests/Requests.antt =====
-- A request's body, and the walk through the source ports.
use rl_rust_client.Common.{
  ℕ, ◌==◌, refl, arith, [], ◌∷◌, replicate, Bool-cases, inl, inr, if◌then◌else◌, ok, err,
}
use rl_rust_client.Protocol.Id.{Hash}
use rl_rust_client.Client.Request.{ResourceRequest}
use rl_rust_client.Client.Request.Layout.{IsHash}
use rl_rust_client.Client.Steering.{Bind, bind_next_steering_socket}
use rl_rust_client.Client.Steering.Ports.{
  in_use, OnlyInUse, IsBound, bind_next_steering_socket-IsBound,
}

abbrev pub test_hash : Hash
test_hash = λ bytes. replicate 32 4

pub test_hash-IsHash : IsHash test_hash
test_hash-IsHash bytes = refl

abbrev test_resource : ResourceRequest
test_resource = record {
  bucket_name = 98 ∷ [];
  window_size_ms = 1000;
  rate_limit = 10;
  tokens_requested = 1;
}

-- Only one port is free.
abbrev test_bind : Bind ℕ
test_bind = λ port. if port == 50_000 then ok 1 else err in_use

test_bind-OnlyInUse : OnlyInUse test_bind
test_bind-OnlyInUse port = elim (Bool-cases (port == 50_000)) [
  | inl e ↦ inl (1, rw e)
  | inr e ↦ inr (rw e)
]

bind_next_steering_socket-IsBound_example :
    IsBound test_bind (bind_next_steering_socket test_bind 0 60_000)
bind_next_steering_socket-IsBound_example =
    bind_next_steering_socket-IsBound test_bind 0 60_000 50_000 1 test_bind-OnlyInUse
      (omega arith, omega arith) refl (inl refl)
