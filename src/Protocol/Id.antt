-- ===== src/Protocol/Id.antt =====
-- The content ids of src/protocol.rs: `derive_content_id` and what it is called by. The hash of the
-- crate `blake2` is a parameter, and a name is its bytes.
use rl_rust_client.Common.{
  ℕ, ◌^◌, ◌-◌, List, [], ◌∷◌, ◌++◌, length, ltb, if◌then◌else◌, Result, ok, panic, ◌>>=◌,
}
use rl_rust_client.Common.Bytes.{to_le_bytes, slice, to_array}

-- `Blake2s256`: the digest of the bytes that `update` was given.
abbrev pub Hash : Type 0
Hash = List ℕ → List ℕ

abbrev pub resource_id_domain : List ℕ
resource_id_domain =
    114 ∷ 97 ∷ 116 ∷ 101 ∷ 108 ∷ 105 ∷ 109 ∷ 105 ∷ 116 ∷ 108 ∷ 121 ∷ 46 ∷ 114 ∷ 101 ∷ 115 ∷ 111
    ∷ 117 ∷ 114 ∷ 99 ∷ 101 ∷ 46 ∷ 118 ∷ 49 ∷ 0 ∷ []

abbrev pub latency_tracker_id_domain : List ℕ
latency_tracker_id_domain =
    114 ∷ 97 ∷ 116 ∷ 101 ∷ 108 ∷ 105 ∷ 109 ∷ 105 ∷ 116 ∷ 108 ∷ 121 ∷ 46 ∷ 108 ∷ 97 ∷ 116 ∷ 101 ∷ 110
    ∷ 99 ∷ 121 ∷ 45 ∷ 116 ∷ 114 ∷ 97 ∷ 99 ∷ 107 ∷ 101 ∷ 114 ∷ 46 ∷ 118 ∷ 50 ∷ 0 ∷ []

abbrev pub field_bytes : List ℕ → List ℕ
field_bytes [] = []
field_bytes (field ∷ fields) = to_le_bytes 4 field ++ field_bytes fields

-- The bytes that are hashed.
abbrev pub preimage : List ℕ → List ℕ → List ℕ → List ℕ
preimage domain name fields = domain ++ to_le_bytes 4 (length name) ++ name ++ field_bytes fields

-- `u32::try_from(name.len()).expect(…)`
abbrev pub name_fits : {E : Type 0} → ℕ → Result E (Unit {0})
name_fits len = if ltb (2 ^ 32 - 1) len then panic else ok tt

unfoldable pub derive_content_id :
    {E : Type 0} → Hash → List ℕ → List ℕ → List ℕ → Result E (List ℕ)
derive_content_id hash domain name fields = do
  _ ← name_fits (length name)
  let result = hash (preimage domain name fields)
  prefix ← slice result 0 16
  to_array 16 prefix

unfoldable pub derive_bucket_id : {E : Type 0} → Hash → List ℕ → ℕ → ℕ → Result E (List ℕ)
derive_bucket_id hash bucket_name window_size_ms rate_limit =
    derive_content_id hash resource_id_domain bucket_name (window_size_ms ∷ rate_limit ∷ [])

unfoldable pub derive_latency_tracker_id :
    {E : Type 0} → Hash → List ℕ → ℕ → ℕ → ℕ → Result E (List ℕ)
derive_latency_tracker_id hash latency_tracker_name ttl_ms max_samples min_sample_threshold =
    derive_content_id hash latency_tracker_id_domain latency_tracker_name
      (ttl_ms ∷ max_samples ∷ min_sample_threshold ∷ [])
