-- ===== src/Client/Peek.antt =====
-- The peeks of src/client.rs at a response's header, next to the parser.
use rl_rust_client.Common.{
  ℕ, ◌≤◌, ◌≡◌, refl, sym, ◌∙◌, ap, arith, List, length, take, drop, ◌-◌, Bool, not, ltb, ◌==◌,
  Option, some, Result, ok, map_err, Ensures, ensures_ok, Ensures-bail, Ensures-keep, Ensures-at,
  Ensures-map, Ensures-map_err, ltb-false→le, le→ltb-false, Ensures-bind, ==_iff,
}
use rl_rust_client.Common.Bytes.{
  from_le_bytes, u16_at, Ensures-index, Ensures-slice, Ensures-u16, Ensures-array, Ensures-uint,
  slice_lem, take-drop-take, array_at_lem, uint_at_lem, Returns-u16,
}
use rl_rust_client.Error.{CoreError}
use rl_rust_client.Protocol.{TenantHeader, tlv_tenant, pdu_rate_response, read_tenant_header}
use rl_rust_client.Protocol.Cipher.{Cipher}
use rl_rust_client.Client.Auth.{AuthMethod, parse_auth_tlv}
use rl_rust_client.Client.Response.Safe.{
  parse_auth_tlv_safe, parse_guards_safe, parse_resources_safe,
}
use rl_rust_client.Client.Response.{
  RateLimitResult, parse_tenant_header, parse_guards, parse_resources, parse_rate_response_pdu,
  parse_rate_response_with_auth, peek_server_id, peek_request_id,
}
use Prim.Native.String.{String}

-- The fields that the peeks look at, in a buffer that was read as a header.
abbrev HasFields : List ℕ → TenantHeader → Type 0
HasFields xs h =
    (from_le_bytes (take 8 (drop 4 xs)) ≡ h.key_id) × (take 16 (drop 12 xs) ≡ h.unique_id)

read_fields : (xs : List ℕ) → Ensures (HasFields xs) (read_tenant_header xs)
unfolding read_tenant_header
read_fields xs = Ensures-bail (ltb (length xs) 40) _ _ λ e.
    let h = ltb-false→le (length xs) 40 e in
    rw (array_at_lem {E = String} 16 xs 12 28 refl (omega arith)) (
      Ensures-array 2 xs 38 40 _ refl (omega arith) λ padding.
        Ensures-u16 xs 0 1 _ (omega arith) (omega arith) λ tlv_type.
          Ensures-u16 xs 2 3 _ (omega arith) (omega arith) λ tlv_size.
            rw (uint_at_lem {E = String} 8 xs 4 12 refl (omega arith)) (
              Ensures-uint 8 xs 28 36 _ refl (omega arith) λ time_stamp.
                Ensures-index xs 36 _ (omega arith) λ steering_feedback.
                  Ensures-index xs 37 _ (omega arith) λ tenant_mgmt_flag. ensures_ok (refl, refl)))

-- What both peeks find in a packet whose header is parsed.
abbrev IsPeeked : List ℕ → TenantHeader → Type 0
IsPeeked packet h =
    (peek_server_id packet ≡ ok (some h.key_id)) × (peek_request_id packet ≡ ok (some h.unique_id))

peeks :
    (packet : List ℕ) (size : ℕ) (h : TenantHeader) (type : ℕ)
    → ◌≡◌ {A = Result CoreError ℕ} (u16_at packet 0 1) (ok type)
    → ◌≡◌ {A = Result CoreError ℕ} (u16_at packet 2 3) (ok size)
    → type ≡ tlv_tenant
    → 40 ≤ size
    → size ≤ length packet
    → HasFields (take size packet) h
    → IsPeeked packet h
unfolding peek_server_id peek_request_id
peeks packet size h type t s known large fits (key, id) = (
  rw (
    le→ltb-false (length packet) 12 (omega arith),
    t,
    s,
    (==_iff type tlv_tenant).1 known,
    le→ltb-false size 40 large,
    le→ltb-false (length packet) size fits,
    uint_at_lem {E = CoreError} 8 packet 4 12 refl (omega arith),
    ← take-drop-take size packet 4 8 (omega arith),
    key,
  ),
  rw (
    le→ltb-false (length packet) 28 (omega arith),
    t,
    s,
    (==_iff type tlv_tenant).1 known,
    le→ltb-false size 40 large,
    le→ltb-false (length packet) size fits,
    array_at_lem {E = CoreError} 16 packet 12 28 refl (omega arith),
    ← take-drop-take size packet 12 16 (omega arith),
    id,
  ),
)

parse_tenant_header-peeks :
    (packet : List ℕ) → Ensures (λ r. IsPeeked packet r.0) (parse_tenant_header packet)
unfolding parse_tenant_header
parse_tenant_header-peeks packet = Ensures-bail (ltb (length packet) 4) _ _ λ e.
    let h = ltb-false→le (length packet) 4 e in
    Ensures-keep (u16_at packet 0 1) _ (Returns-u16 packet 0 1 (omega arith) (omega arith))
      λ type t. Ensures-bail (not (type == tlv_tenant)) _ _ λ known.
        Ensures-keep (u16_at packet 2 3) _ (Returns-u16 packet 2 3 (omega arith) (omega arith))
          λ size s. Ensures-bail (ltb size 40) _ _ λ large.
            Ensures-bail (ltb (length packet) size) _ _ λ fits.
              let room = ltb-false→le (length packet) size fits in
              let wide : size - 0 ≡ size = omega arith in
              rw (slice_lem {E = CoreError} packet 0 size (omega arith) room, wide)
                (Ensures-bind (map_err _ (read_tenant_header (take size packet))) _ (
                  Ensures-map
                    (λ header fields. ensures_ok (
                      peeks packet size header type t s (ground arith) (ltb-false→le size 40 large)
                        room fields))
                    (Ensures-map_err _ (read_tenant_header (take size packet))
                      (read_fields (take size packet)))))

parse_rate_response_pdu-server_id :
    (pdu : List ℕ) (id : ℕ) (feedback : Bool)
    → Ensures (λ r. r.server_id ≡ id) (parse_rate_response_pdu pdu id feedback)
unfolding parse_rate_response_pdu
parse_rate_response_pdu-server_id pdu id feedback = Ensures-bail (ltb (length pdu) 8) _ _ λ e.
    let h = ltb-false→le (length pdu) 8 e in
    Ensures-u16 pdu 0 1 _ (omega arith) (omega arith) λ pdu_type.
      Ensures-bail (not (pdu_type == pdu_rate_response)) _ _ λ known.
        Ensures-u16 pdu 2 3 _ (omega arith) (omega arith) λ pdu_size.
          Ensures-bail (ltb pdu_size 8) _ _ λ large.
            Ensures-bail (ltb (length pdu) pdu_size) _ _ λ fits.
              Ensures-slice pdu 8 pdu_size _ (ltb-false→le pdu_size 8 large)
                (ltb-false→le (length pdu) pdu_size fits)
                λ body len. Ensures-bail (ltb (length body) 4) _ _ λ counts.
                  let k = ltb-false→le (length body) 4 counts in
                  Ensures-u16 body 0 1 _ (omega arith) (omega arith) λ guard_count.
                    Ensures-u16 body 2 3 _ (omega arith) (omega arith) λ resource_count.
                      Ensures-bind (parse_guards guard_count body 4) _ (
                        Ensures-map
                          (λ r _. Ensures-bind (parse_resources resource_count body r.1) _ (
                            Ensures-map (λ t _. ensures_ok refl)
                              (parse_resources_safe resource_count body r.1)))
                          (parse_guards_safe guard_count body 4))

parse-IsPeeked :
    (c : Cipher) (packet : List ℕ) (method : AuthMethod) (hash key : Option (List ℕ))
    → Ensures
        (λ r. peek_server_id packet ≡ ok (some r.server_id))
        (parse_rate_response_with_auth c packet method hash key)
unfolding parse_rate_response_with_auth
parse-IsPeeked c packet method hash key = Ensures-bind (parse_tenant_header packet) _ (
    Ensures-map
      (λ r peeked. Ensures-bind (parse_auth_tlv c packet r.1 method hash key) _ (
        Ensures-map
          (λ pdu _.
            Ensures-map (λ result same. peeked.0 ∙ ap (λ id. ok (some id)) (sym same))
              (parse_rate_response_pdu-server_id pdu r.0.key_id (not (r.0.steering_feedback == 0))))
          (parse_auth_tlv_safe c packet r.1 method hash key)))
      (parse_tenant_header-peeks packet))

-- Every packet that is parsed to a result was peeked with the id of the result's server: the test
-- that `accept_policy_response` makes before the parse is about the same id.
pub peek_server_id-parse :
    (c : Cipher) (packet : List ℕ) (method : AuthMethod) (hash key : Option (List ℕ))
    (result : RateLimitResult)
    → parse_rate_response_with_auth c packet method hash key ≡ ok result
    → peek_server_id packet ≡ ok (some result.server_id)
peek_server_id-parse c packet method hash key result =
    Ensures-at (parse_rate_response_with_auth c packet method hash key)
      (parse-IsPeeked c packet method hash key)
