-- ===== src/Client/Response/Safe.antt =====
-- The slices and indices of the response parser of src/client.rs on packets of an untrusted peer.
use rl_rust_client.Common.{
  ℕ, zero, suc, ◌+◌, ◌≤◌, ◌≡◌, refl, arith, List, length, Bool, not, ltb, ◌==◌, Bool-cases, inl,
  inr, Option, map_err, ok_or, Returns, ensures_ok, ensures_err, Ensures-bind, Ensures-bail,
  Ensures-bail_only, Ensures-map_err, Ensures-map, Ensures-ok_or, ltb-false→le,
}
use rl_rust_client.Common.Bytes.{
  Ensures-index, Ensures-slice, Ensures-slice_from, Returns-slice_from, Ensures-to_array,
  Ensures-u16, Ensures-array, Ensures-uint,
}
use rl_rust_client.Protocol.{
  tlv_tenant, tlv_auth_none, tlv_auth_cookie, tlv_auth_aes, pdu_rate_response, read_tenant_header,
  read_guard_block, read_resource_block,
}
use rl_rust_client.Protocol.Cipher.{Cipher}
use rl_rust_client.Client.Auth.{
  AuthMethod, cookie, aes_gcm, parse_auth_tlv, parse_auth_body, parse_none_body, parse_cookie_body,
  parse_aes_body, check_cookie, same_bytes, expected_auth_type,
}
use rl_rust_client.Client.Response.{
  parse_tenant_header, parse_guards, parse_resources, parse_rate_response_pdu,
  parse_rate_response_with_auth,
}

read_tenant_header_safe : (xs : List ℕ) → Returns (read_tenant_header xs)
unfolding read_tenant_header
read_tenant_header_safe xs = Ensures-bail _ _ _ λ e.
    let h = ltb-false→le (length xs) 40 e in
    Ensures-array 16 xs 12 28 _ refl (omega arith) λ unique_id.
      Ensures-array 2 xs 38 40 _ refl (omega arith) λ padding.
        Ensures-u16 xs 0 1 _ (omega arith) (omega arith) λ tlv_type.
          Ensures-u16 xs 2 3 _ (omega arith) (omega arith) λ tlv_size.
            Ensures-uint 8 xs 4 12 _ refl (omega arith) λ key_id.
              Ensures-uint 8 xs 28 36 _ refl (omega arith) λ time_stamp.
                Ensures-index xs 36 _ (omega arith) λ steering_feedback.
                  Ensures-index xs 37 _ (omega arith) λ tenant_mgmt_flag. ensures_ok tt

read_guard_block_safe : (xs : List ℕ) → Returns (read_guard_block xs)
unfolding read_guard_block
read_guard_block_safe xs = Ensures-bail _ _ _ λ e.
    let h = ltb-false→le (length xs) 36 e in
    Ensures-array 16 xs 0 16 _ refl (omega arith) λ id.
      Ensures-uint 4 xs 16 20 _ refl (omega arith) λ ttl_ms.
        Ensures-uint 4 xs 20 24 _ refl (omega arith) λ max_samples.
          Ensures-uint 4 xs 24 28 _ refl (omega arith) λ min_sample_threshold.
            Ensures-uint 4 xs 28 32 _ refl (omega arith) λ latency_threshold.
              Ensures-uint 4 xs 32 36 _ refl (omega arith) λ current_latency. ensures_ok tt

read_resource_block_safe : (xs : List ℕ) → Returns (read_resource_block xs)
unfolding read_resource_block
read_resource_block_safe xs = Ensures-bail _ _ _ λ e.
    let h = ltb-false→le (length xs) 28 e in
    Ensures-array 16 xs 0 16 _ refl (omega arith) λ id.
      Ensures-uint 4 xs 16 20 _ refl (omega arith) λ window_size_ms.
        Ensures-uint 4 xs 20 24 _ refl (omega arith) λ rate_limit.
          Ensures-uint 2 xs 24 26 _ refl (omega arith) λ tokens_requested.
            Ensures-uint 2 xs 26 28 _ refl (omega arith) λ padding. ensures_ok tt

parse_tenant_header_safe : (packet : List ℕ) → Returns (parse_tenant_header packet)
unfolding parse_tenant_header
parse_tenant_header_safe packet = Ensures-bail _ _ _ λ e.
    let h = ltb-false→le (length packet) 4 e in
    Ensures-u16 packet 0 1 _ (omega arith) (omega arith) λ tlv_type.
      Ensures-bail (not (tlv_type == tlv_tenant)) _ _ λ known.
        Ensures-u16 packet 2 3 _ (omega arith) (omega arith) λ tlv_size.
          Ensures-bail (ltb tlv_size 40) _ _ λ large.
            Ensures-bail (ltb (length packet) tlv_size) _ _ λ fits.
              Ensures-slice packet 0 tlv_size _ (omega arith)
                (ltb-false→le (length packet) tlv_size fits)
                λ window len. Ensures-bind _ _ (
                  Ensures-map (λ header _. ensures_ok tt)
                    (Ensures-map_err _ (read_tenant_header window)
                      (read_tenant_header_safe window)))

check_cookie_safe :
    (method : AuthMethod) (cache : Option (List ℕ)) (body : List ℕ)
    → Returns (check_cookie method cache body)
unfolding check_cookie
check_cookie_safe AuthMethod.none cache body = ensures_ok tt
check_cookie_safe (cookie secret) cache body = Ensures-bind _ _ (
    Ensures-map (λ expected _. Ensures-bail_only (not (same_bytes body expected)) _)
      (Ensures-ok_or cache _))
check_cookie_safe (aes_gcm secret) cache body = ensures_ok tt

parse_none_body_safe :
    (packet : List ℕ) (size start : ℕ)
    → start ≤ length packet
    → Returns (parse_none_body packet size start)
unfolding parse_none_body
parse_none_body_safe packet size start h =
    Ensures-bail (not (size == 4)) _ _ λ e. Returns-slice_from packet start h

parse_cookie_body_safe :
    (method : AuthMethod) (cache : Option (List ℕ)) (packet : List ℕ) (pos size : ℕ)
    → 4 ≤ size
    → pos + size ≤ length packet
    → Returns (parse_cookie_body method cache packet pos size (pos + size))
unfolding parse_cookie_body
parse_cookie_body_safe method cache packet pos size h k = Ensures-bail (not (size == 36)) _ _ λ e.
    Ensures-slice packet (pos + 4) (pos + size) _ (omega arith) k λ body len.
      Ensures-bind (check_cookie method cache body) _ (
        Ensures-map (λ _ _. Returns-slice_from packet (pos + size) k)
          (check_cookie_safe method cache body))

parse_aes_body_safe :
    (c : Cipher) (cache : Option (List ℕ)) (packet : List ℕ) (pos size : ℕ)
    → pos + size ≤ length packet
    → Returns (parse_aes_body c cache packet pos size (pos + size))
unfolding parse_aes_body
parse_aes_body_safe c cache packet pos size k = Ensures-bail (not (size == 32)) _ _ λ e.
    let s : size ≡ 32 = ground arith in
    Ensures-slice packet (pos + 4) (pos + size) _ (omega arith) k λ body len.
      Ensures-slice body 0 12 _ (omega arith) (omega arith) λ nonce nonce_len.
        Ensures-to_array 12 nonce _ (omega arith) (
          Ensures-slice body 12 28 _ (omega arith) (omega arith) λ tag tag_len.
            Ensures-to_array 16 tag _ (omega arith) (
              Ensures-bind (ok_or cache _) _ (
                Ensures-map
                  (λ key _. Ensures-slice_from packet (pos + size) _ k λ encrypted _.
                    Ensures-slice packet 0 (pos + 4 + 12) _ (omega arith) (omega arith)
                      λ aad _. Ensures-ok_or _ _)
                  (Ensures-ok_or cache _))))

parse_auth_body_safe :
    (c : Cipher) (method : AuthMethod) (hash key : Option (List ℕ)) (packet : List ℕ)
    (pos tlv_type size : ℕ)
    → 4 ≤ size
    → pos + size ≤ length packet
    → Returns (parse_auth_body c method hash key packet pos tlv_type size (pos + size))
unfolding parse_auth_body
parse_auth_body_safe c method hash key packet pos tlv_type size h k =
    elim (Bool-cases (tlv_type == tlv_auth_none)) [
      | inl e ↦ rw e (parse_none_body_safe packet size (pos + size) k)
      | inr n ↦ elim (Bool-cases (tlv_type == tlv_auth_cookie)) [
        | inl e ↦ rw (n, e) (parse_cookie_body_safe method hash packet pos size h k)
        | inr n' ↦ elim (Bool-cases (tlv_type == tlv_auth_aes)) [
          | inl e ↦ rw (n, n', e) (parse_aes_body_safe c key packet pos size k)
          | inr n'' ↦ rw (n, n', n'') ensures_err
        ]
      ]
    ]

pub parse_auth_tlv_safe :
    (c : Cipher) (packet : List ℕ) (pos : ℕ) (method : AuthMethod) (hash key : Option (List ℕ))
    → Returns (parse_auth_tlv c packet pos method hash key)
unfolding parse_auth_tlv
parse_auth_tlv_safe c packet pos method hash key = Ensures-bail _ _ _ λ e.
    let h = ltb-false→le (length packet) (pos + 4) e in
    Ensures-u16 packet pos (pos + 1) _ (omega arith) (omega arith) λ tlv_type.
      Ensures-u16 packet (pos + 2) (pos + 3) _ (omega arith) (omega arith) λ tlv_size.
        Ensures-bail (ltb tlv_size 4) _ _ λ large.
          Ensures-bail (ltb (length packet) (pos + tlv_size)) _ _ λ fits.
            Ensures-bail (not (tlv_type == expected_auth_type method)) _ _ λ known.
              Ensures-bail (ltb (length packet) (pos + tlv_size)) _ _ λ fits'.
                parse_auth_body_safe c method hash key packet pos tlv_type tlv_size
                  (ltb-false→le tlv_size 4 large)
                  (ltb-false→le (length packet) (pos + tlv_size) fits)

pub parse_guards_safe : (left : ℕ) (body : List ℕ) (pos : ℕ) → Returns (parse_guards left body pos)
unfolding parse_guards
parse_guards_safe zero body pos = ensures_ok tt
parse_guards_safe (suc left) body pos = Ensures-bail (ltb (length body) (pos + 36)) _ _ λ e.
    Ensures-slice_from body pos _ (omega (arith, ltb-false→le (length body) (pos + 36) e))
      λ window len. Ensures-bind (map_err _ (read_guard_block window)) _ (
        Ensures-map
          (λ block _.
            Ensures-bind (parse_guards left body (pos + 36)) _
              (Ensures-map (λ r _. ensures_ok tt) (parse_guards_safe left body (pos + 36))))
          (Ensures-map_err _ (read_guard_block window) (read_guard_block_safe window)))

pub parse_resources_safe :
    (left : ℕ) (body : List ℕ) (pos : ℕ) → Returns (parse_resources left body pos)
unfolding parse_resources
parse_resources_safe zero body pos = ensures_ok tt
parse_resources_safe (suc left) body pos = Ensures-bail (ltb (length body) (pos + 28)) _ _ λ e.
    Ensures-slice_from body pos _ (omega (arith, ltb-false→le (length body) (pos + 28) e))
      λ window len. Ensures-bind (map_err _ (read_resource_block window)) _ (
        Ensures-map
          (λ block _.
            Ensures-bind (parse_resources left body (pos + 28)) _
              (Ensures-map (λ r _. ensures_ok tt) (parse_resources_safe left body (pos + 28))))
          (Ensures-map_err _ (read_resource_block window) (read_resource_block_safe window)))

parse_rate_response_pdu_safe :
    (pdu : List ℕ) (server_id : ℕ) (feedback : Bool)
    → Returns (parse_rate_response_pdu pdu server_id feedback)
unfolding parse_rate_response_pdu
parse_rate_response_pdu_safe pdu server_id feedback = Ensures-bail (ltb (length pdu) 8) _ _ λ e.
    let h = ltb-false→le (length pdu) 8 e in
    Ensures-u16 pdu 0 1 _ (omega arith) (omega arith) λ pdu_type.
      Ensures-bail (not (pdu_type == pdu_rate_response)) _ _ λ known.
        Ensures-u16 pdu 2 3 _ (omega arith) (omega arith) λ pdu_size.
          Ensures-bail (ltb pdu_size 8) _ _ λ large.
            Ensures-bail (ltb (length pdu) pdu_size) _ _ λ fits.
              Ensures-slice pdu 8 pdu_size _ (ltb-false→le pdu_size 8 large)
                (ltb-false→le (length pdu) pdu_size fits)
                λ body len. Ensures-bail (ltb (length body) 4) _ _ λ counts.
                  let k = ltb-false→le (length body) 4 counts in
                  Ensures-u16 body 0 1 _ (omega arith) (omega arith) λ guard_count.
                    Ensures-u16 body 2 3 _ (omega arith) (omega arith) λ resource_count.
                      Ensures-bind (parse_guards guard_count body 4) _ (
                        Ensures-map
                          (λ r _. Ensures-bind (parse_resources resource_count body r.1) _ (
                            Ensures-map (λ t _. ensures_ok tt)
                              (parse_resources_safe resource_count body r.1)))
                          (parse_guards_safe guard_count body 4))

-- On every packet, method and cache, the parser of a rate response returns a result or an error:
-- no slice, index or conversion in it is out of bounds.
pub parse_rate_response_safe :
    (c : Cipher) (packet : List ℕ) (method : AuthMethod) (hash key : Option (List ℕ))
    → Returns (parse_rate_response_with_auth c packet method hash key)
unfolding parse_rate_response_with_auth
parse_rate_response_safe c packet method hash key = Ensures-bind (parse_tenant_header packet) _ (
    Ensures-map
      (λ r _. Ensures-bind (parse_auth_tlv c packet r.1 method hash key) _ (
        Ensures-map (λ pdu _. parse_rate_response_pdu_safe pdu _ _)
          (parse_auth_tlv_safe c packet r.1 method hash key)))
      (parse_tenant_header_safe packet))
