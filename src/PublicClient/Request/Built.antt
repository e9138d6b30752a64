-- ===== src/PublicClient/Request/Built.antt =====
-- The requests that the operations of `RequestBuilder` in src/public_client.rs make.
use rl_rust_client.Common.{
  ℕ, suc, ◌+◌, ◌-◌, ◌^◌, ◌≤◌, ◌<◌, ◌≡◌, refl, arith, List, [], ◌∷◌, ◌++◌, length, subst,
  ltb-false→le, le→ltb-false, length-append, All, map, ltb, ◌==◌, if◌then◌else◌, none, some, ok,
  ok_or, Bool-cases, false, inl, inr, Ensures, Ensures-at, Ensures-bail, Ensures-then, ensures_ok,
  ensures_err,
}
use rl_rust_client.Common.Bytes.{to_le_bytes}
use rl_rust_client.Duration.{Duration, duration_to_u32_ms}
use rl_rust_client.Error.{ConfigurationError, invalid_token_quantity}
use rl_rust_client.Model.{Resource, LatencyTracker}
use rl_rust_client.Model.Valid.{duration_bounds, IsResource, IsTracker}
use rl_rust_client.Protocol.Id.{Hash}
use rl_rust_client.Client.Request.{
  ResourceRequest, u16, build_rate_request_body, find_wide, validate_rate_windows_against_quota,
}
use rl_rust_client.Client.Request.Layout.{
  IsHash, IsResourceName, IsGuardName, LabelFits, guard_of, resource_of, label_tlv,
  build_rate_request_body_lem,
}
use rl_rust_client.Client.Response.Wire.{wire_guards, wire_resources}
use rl_rust_client.ApiKey.Codec.{ApiKeyLimits}
use rl_rust_client.PublicClient.Request.{
  RequestBuilder, request, metrics_label, token_quantity, consume, guard,
}

-- The builders that the operations make, from the empty one on, of values that `src/model.rs` made.
pub data Built (hash : Hash) (limits : ApiKeyLimits) : RequestBuilder → Type 0 where
  empty : Built hash limits (request limits)
  labelled :
      (b b' : RequestBuilder) (label : List ℕ)
      → Built hash limits b
      → metrics_label b label ≡ ok b'
      → Built hash limits b'
  consumed :
      (b b' : RequestBuilder) (resource : Resource) (tokens : ℕ)
      → Built hash limits b
      → IsResource hash resource
      → consume b resource tokens ≡ ok b'
      → Built hash limits b'
  guarded :
      (b b' : RequestBuilder) (tracker : LatencyTracker) (threshold : Duration)
      → Built hash limits b
      → IsTracker hash tracker
      → guard b tracker threshold ≡ ok b'
      → Built hash limits b'

-- An entry fits its block on the wire and the limits of the key.
pub record IsEntry (limits : ApiKeyLimits) (r : ResourceRequest) : Type 0 where
  pub name_fits : IsResourceName r
  pub window_fits : r.window_size_ms ≤ limits.rate_window_size_ms_max
  pub some_tokens : 0 < r.tokens_requested
  pub tokens_fit : r.tokens_requested < 2 ^ 16

pub record IsRequest (limits : ApiKeyLimits) (b : RequestBuilder) : Type 0 where
  pub same_limits : b.limits ≡ limits
  pub resources_fit : length b.resources < 2 ^ 16
  pub guards_fit : length b.guards < 2 ^ 16
  pub entries : All (IsEntry limits) b.resources
  pub guard_names : All IsGuardName b.guards
  pub label_fits : LabelFits b.label

one_more :
    {A : Type 0} (xs : List A) (x : A)
    → length xs < 2 ^ 16
    → (length xs == 2 ^ 16 - 1) ≡ false
    → length (xs ++ (x ∷ [])) < 2 ^ 16
one_more xs x h room =
    let longer : length (xs ++ (x ∷ [])) ≡ length xs + 1 = length-append xs (x ∷ []) in
    let short : length xs < 2 ^ 16 - 1 = ground arith in omega (arith, longer, short)

All-snoc :
    {A : Type 0} (P : A → Type 0) (xs : List A) (x : A) → All P xs → P x → All P (xs ++ (x ∷ []))
All-snoc P [] x h hx = (hx, tt)
All-snoc P (y ∷ xs) x (hy, h) hx = (hy, All-snoc P xs x h hx)

token_quantity_bounds :
    (tokens : ℕ)
    → Ensures {E = ConfigurationError}
        (λ t. (0 < t) × (t < 2 ^ 16))
        (ok_or (token_quantity tokens) invalid_token_quantity)
token_quantity_bounds tokens = elim (Bool-cases (ltb (2 ^ 16 - 1) tokens)) [
  | inl big ↦ rw big ensures_err
  | inr fits ↦ elim (Bool-cases (ltb 0 tokens)) [
    | inl some_tokens ↦ rw (fits, some_tokens) (ensures_ok (ground arith, ground arith))
    | inr zero ↦ rw (fits, zero) ensures_err
  ]
]

kept_label :
    (label : List ℕ)
    → length label ≤ 65_526
    → LabelFits (if length label == 0 then none else some label)
kept_label [] h = tt
kept_label (c ∷ label) h =
    let nonempty : (suc (length label) == 0) ≡ false = ground arith in rw nonempty h

metrics_label-IsRequest :
    (limits : ApiKeyLimits) (b : RequestBuilder) (label : List ℕ)
    → IsRequest limits b
    → Ensures (IsRequest limits) (metrics_label b label)
unfolding metrics_label
metrics_label-IsRequest limits b label v = Ensures-bail (ltb 65_526 (length label)) _ _ λ short.
    ensures_ok (record {
      same_limits = v.same_limits;
      resources_fit = v.resources_fit;
      guards_fit = v.guards_fit;
      entries = v.entries;
      guard_names = v.guard_names;
      label_fits = kept_label label (ltb-false→le 65_526 (length label) short);
    })

consume-IsRequest :
    (hash : Hash) (limits : ApiKeyLimits) (b : RequestBuilder) (resource : Resource) (tokens : ℕ)
    → IsRequest limits b
    → IsResource hash resource
    → Ensures (IsRequest limits) (consume b resource tokens)
unfolding consume
consume-IsRequest hash limits b resource tokens v r =
    Ensures-then (ok_or (token_quantity tokens) _) _ (token_quantity_bounds tokens)
      λ t (some_tokens, fits).
        Ensures-bail (ltb b.limits.rate_window_size_ms_max resource.window_ms) _ _ λ window.
          Ensures-bail (length b.resources == 2 ^ 16 - 1) _ _ λ room. ensures_ok (record {
            same_limits = v.same_limits;
            resources_fit = one_more b.resources _ v.resources_fit room;
            guards_fit = v.guards_fit;
            entries = All-snoc (IsEntry limits) b.resources _ v.entries (record {
              name_fits = r.name_fits;
              window_fits =
                  subst (λ l. resource.window_ms ≤ l.rate_window_size_ms_max) v.same_limits
                    (ltb-false→le _ resource.window_ms window);
              some_tokens = some_tokens;
              tokens_fit = fits;
            });
            guard_names = v.guard_names;
            label_fits = v.label_fits;
          })

guard-IsRequest :
    (hash : Hash) (limits : ApiKeyLimits) (b : RequestBuilder) (tracker : LatencyTracker)
    (threshold : Duration)
    → IsRequest limits b
    → IsTracker hash tracker
    → Ensures (IsRequest limits) (guard b tracker threshold)
unfolding guard
guard-IsRequest hash limits b tracker threshold v t =
    Ensures-bail (length b.guards == 2 ^ 16 - 1) _ _ λ room.
      Ensures-then (duration_to_u32_ms threshold "latency threshold") _
        (duration_bounds threshold "latency threshold")
        λ ms fits. ensures_ok (record {
          same_limits = v.same_limits;
          resources_fit = v.resources_fit;
          guards_fit = one_more b.guards _ v.guards_fit room;
          entries = v.entries;
          guard_names = All-snoc IsGuardName b.guards _ v.guard_names t.name_fits;
          label_fits = v.label_fits;
        })

Built-IsRequest :
    (hash : Hash) (limits : ApiKeyLimits) (b : RequestBuilder)
    → Built hash limits b
    → IsRequest limits b
unfolding request
Built-IsRequest hash limits b empty = record {
  same_limits = refl;
  resources_fit = omega arith;
  guards_fit = omega arith;
  entries = tt;
  guard_names = tt;
  label_fits = tt;
}
Built-IsRequest hash limits _ (labelled b b' label made e) =
    Ensures-at (metrics_label b label)
      (metrics_label-IsRequest limits b label (Built-IsRequest hash limits b made)) e
Built-IsRequest hash limits _ (consumed b b' resource tokens made r e) =
    Ensures-at (consume b resource tokens)
      (consume-IsRequest hash limits b resource tokens (Built-IsRequest hash limits b made) r) e
Built-IsRequest hash limits _ (guarded b b' tracker threshold made t e) =
    Ensures-at (guard b tracker threshold)
      (guard-IsRequest hash limits b tracker threshold (Built-IsRequest hash limits b made) t) e

within_windows :
    (limits : ApiKeyLimits) (rs : List ResourceRequest)
    → All (IsEntry limits) rs
    → validate_rate_windows_against_quota rs (some limits.rate_window_size_ms_max) ≡ ok tt
unfolding validate_rate_windows_against_quota find_wide
within_windows limits [] h = refl
within_windows limits (r ∷ rs) (v, h) =
    rw (le→ltb-false limits.rate_window_size_ms_max r.window_size_ms v.window_fits)
      (within_windows limits rs h)

entry_names :
    (limits : ApiKeyLimits) (rs : List ResourceRequest)
    → All (IsEntry limits) rs
    → All IsResourceName rs
entry_names limits [] h = tt
entry_names limits (r ∷ rs) (v, h) = (v.name_fits, entry_names limits rs h)

pub build_rate_request_body-Built :
    (hash : Hash) (limits : ApiKeyLimits) (b : RequestBuilder)
    → IsHash hash
    → Built hash limits b
    → (validate_rate_windows_against_quota b.resources (some limits.rate_window_size_ms_max)
        ≡ ok tt)
      × (build_rate_request_body hash b.resources b.guards b.label
          ≡ ok (
              to_le_bytes 2 (length b.guards)
              ++ to_le_bytes 2 (length b.resources)
              ++ wire_guards (map (guard_of hash) b.guards) []
              ++ wire_resources (map (resource_of hash) b.resources) []
              ++ label_tlv b.label))
build_rate_request_body-Built hash limits b h made =
    let v = Built-IsRequest hash limits b made in
    (
      within_windows limits b.resources v.entries,
      subst
          (λ n.
            build_rate_request_body hash b.resources b.guards b.label
            ≡ ok (body_of n (length b.resources)))
          (exact_u16 (length b.guards) v.guards_fit)
          (subst
            (λ n.
              build_rate_request_body hash b.resources b.guards b.label
              ≡ ok (body_of (u16 (length b.guards)) n))
            (exact_u16 (length b.resources) v.resources_fit)
            (build_rate_request_body_lem hash b.resources b.guards b.label h
              (entry_names limits b.resources v.entries) v.guard_names v.label_fits).0),
    )
  where
    body_of : ℕ → ℕ → List ℕ
    body_of g r =
        to_le_bytes 2 g
        ++ to_le_bytes 2 r
        ++ wire_guards (map (guard_of hash) b.guards) []
        ++ wire_resources (map (resource_of hash) b.resources) []
        ++ label_tlv b.label

    exact_u16 : (n : ℕ) → n < 2 ^ 16 → u16 n ≡ n
    exact_u16 n h = omega arith
