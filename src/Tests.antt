-- ===== src/Tests.antt =====
-- Runs of the model on concrete inputs, with the theorems applied to them.
mod Packets
mod Exchange
mod Requests
mod ApiKey
mod Public
mod Traffic
mod Network
mod Router
mod Builder
use rl_rust_client.Duration.{duration_to_u32_ms, duration_to_u32_ms_exact}
use rl_rust_client.Common.{
  ◌↔◌, ◌<◌, ◌^◌, ℕ, ◌+◌, ◌-◌, ◌*◌, ◌≤◌, ◌≡◌, refl, ◌∙◌, ap, arith, List, [], ◌∷◌, ◌++◌, length,
  length-append, replicate, take, take-append, true, false, Option, none, some, Result, ok, err,
  Ensures, Returns,
}
use rl_rust_client.Error.{
  ConfigurationError, CoreError, IoResult, sent, failed, IoError, addr_not_available,
}
use rl_rust_client.Duration.{Duration, duration_to_u32_ms, duration_to_u32_ms_exact, from_millis}
use rl_rust_client.Policy.Schedule.{Schedule, fixed, linear, exponential, units}
use rl_rust_client.Policy.Schedule.Units.{ideal_units, units-ideal, ideal_units_bounds}
use rl_rust_client.Policy.Request.{
  RequestPolicy, default_policy, default_builder, horizon, horizon_ms, add_rounds, build, to_policy,
}
use rl_rust_client.Policy.Request.Horizon.{horizon_ms_lem, total_units}
use rl_rust_client.Policy.Request.Build.{HasSettings, build_lem}
use rl_rust_client.Protocol.{TenantHeader, GuardBlock, ResourceBlock}
use rl_rust_client.Protocol.Cipher.{Cipher, IsAead}
use rl_rust_client.Protocol.RoundTrip.{tenant_fields}
use rl_rust_client.Common.Bytes.{contents}
use rl_rust_client.Client.Auth.{
  AuthMethod, aes_gcm, append_auth_tlv, parse_auth_tlv, cookie_hash_cache, aes_key_cache,
  auth_header_size,
}
use rl_rust_client.Client.Auth.RoundTrip.{parse_auth_tlv-append_auth_tlv}
use rl_rust_client.Client.Response.{parse_rate_response_with_auth}
use rl_rust_client.Client.Response.Safe.{parse_rate_response_safe}
use rl_rust_client.Client.Response.Wire.{ResponseBlocks, wire_pdu, expected_result}
use rl_rust_client.Client.Response.RoundTrip.{parse_rate_response_lem}
use rl_rust_client.Client.Servers.{compare_server_age, oldest_from}
use rl_rust_client.Client.Servers.Age.{compare_server_age_lem, oldest_from-le}
use Prim.Native.Nat.{compare, Ordering}

-- A stand-in for the cipher: the tag is 16 zeros.
abbrev pub test_cipher : Cipher
test_cipher = record {
  encrypt = λ key nonce aad msg. some (msg ++ replicate 16 0);
  decrypt = λ key nonce aad sealed. some (take (length sealed - 16) sealed);
}

pub test_cipher-IsAead : IsAead test_cipher
test_cipher-IsAead = record {
  seals = λ key nonce aad msg h.
      let size : length (msg ++ replicate 16 0) ≡ length msg + 16 =
        omega (arith, length-append msg (replicate 16 0)) in
      let back : length (msg ++ replicate 16 0) - 16 ≡ length msg = omega (arith, size) in
      (
        msg ++ replicate 16 0,
        refl,
        size,
        ap (λ n. some (take n (msg ++ replicate 16 0))) back
            ∙ ap some (take-append (length msg) msg (replicate 16 0) refl),
      );
}

units-linear : units (linear 1 2 6) 3 ≡ ok 6
unfolding units linear
units-linear = refl

units-ideal_example : units (exponential 2 3 100) 3 ≡ ok 54
unfolding exponential
units-ideal_example =
    units-ideal (exponential 2 3 100) 3
      (record { initial_fits = omega arith; max_fits = omega arith; growth_fits = omega arith })

horizon_ms_lem_example : horizon_ms default_policy 100 ≡ ok 60
unfolding default_policy fixed total_units
horizon_ms_lem_example = horizon_ms_lem default_policy 100 (record {
  unit_fits = omega arith;
  replays_fit = omega arith;
  gap_fits = record {
    initial_fits = omega arith;
    max_fits = omega arith;
    growth_fits = omega arith;
  };
  final_fits = omega arith;
})

build_lem_example :
    HasSettings default_builder default_policy
    × (from_millis default_policy.unit_ms ≡ from_millis 20)
    × (horizon default_policy ≡ ok (from_millis 60))
    × (horizon_ms default_policy 100 ≡ ok 60)
unfolding default_builder default_policy fixed to_policy build horizon_ms units add_rounds
    total_units
build_lem_example =
    build_lem default_builder default_policy 100
      (record {
        unit_fits = record { secs_fit = omega arith; nanos_fit = omega arith };
        replays_fit = omega arith;
        gap_fits = record {
          initial_fits = omega arith;
          max_fits = omega arith;
          growth_fits = omega arith;
        };
        final_fits = omega arith;
      })
      refl (omega arith)

duration_to_u32_ms_exact_example :
    (duration_to_u32_ms (from_millis 1500) "gap" ≡ ok 1500)
    ↔ ((from_millis 1500 ≡ from_millis 1500) × (0 < 1500) × (1500 < 2 ^ 32))
duration_to_u32_ms_exact_example =
    duration_to_u32_ms_exact (from_millis 1500) "gap" 1500
      (record { secs_fit = omega arith; nanos_fit = omega arith })
