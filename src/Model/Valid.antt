-- ===== src/Model/Valid.antt =====
-- The values that `Resource::new` and `LatencyTrackerBuilder::build` of src/model.rs answer.
use rl_rust_client.Common.{
  ℕ, ◌-◌, ◌^◌, ◌<◌, ◌≡◌, ◌↔◌, refl, sym, ◌∙◌, arith, List, [], ◌∷◌, length, true, false, not, ltb,
  ◌==◌, ◌||◌, ok, err, ok_or, ◌>>=◌, Ensures, Ensures-bind, Ensures-bail, Ensures-map, ensures_ok,
  ensures_err, Ensures-ok_or, bind_cong, bind_ok-inj, Bool-cases, inl, inr,
}
use rl_rust_client.Duration.{
  Duration, IsDuration, is_zero, is_whole_millis, as_millis, duration_to_u32_ms,
  duration_to_u32_ms_exact, from_millis,
}
use rl_rust_client.Error.{ConfigurationError, invalid_name}
use rl_rust_client.Protocol.Id.{
  Hash, derive_bucket_id, derive_latency_tracker_id, resource_id_domain, latency_tracker_id_domain,
}
use rl_rust_client.Client.Request.Layout.{IsHash, content_id, derive_content_id_lem}
use Prim.Native.String.{String}
use rl_rust_client.Model.{
  Resource, bad_name, new_resource, LatencyTracker, LatencyTrackerBuilder, check_counts,
  build_tracker,
}

-- What a resource may hold.
pub record IsResource (hash : Hash) (r : Resource) : Type 0 where
  pub some_name : 0 < length r.name
  pub name_fits : length r.name < 2 ^ 32
  pub some_window : 0 < r.window_ms
  pub window_fits : r.window_ms < 2 ^ 32
  pub names_content :
      r.id ≡ content_id hash resource_id_domain r.name (r.window_ms ∷ r.rate_limit ∷ [])

pub record IsTracker (hash : Hash) (t : LatencyTracker) : Type 0 where
  pub some_name : 0 < length t.name
  pub name_fits : length t.name < 2 ^ 32
  pub some_ttl : 0 < t.sample_ttl_ms
  pub ttl_fits : t.sample_ttl_ms < 2 ^ 32
  pub some_max : 0 < t.max_samples
  pub some_min : 0 < t.min_samples
  pub names_content :
      t.id
      ≡ content_id hash latency_tracker_id_domain t.name
          (t.sample_ttl_ms ∷ t.max_samples ∷ t.min_samples ∷ [])

good_name : (name : List ℕ) → bad_name name ≡ false → (0 < length name) × (length name < 2 ^ 32)
good_name name h = ground arith

pub duration_bounds :
    (d : Duration) (field : String)
    → Ensures (λ ms. (0 < ms) × (ms < 2 ^ 32)) (duration_to_u32_ms d field)
unfolding duration_to_u32_ms
duration_bounds d field =
    Ensures-bail (is_zero d || not (is_whole_millis d) || ltb (2 ^ 32 - 1) (as_millis d)) _ _
      λ e. ensures_ok (ground arith)

-- The resource of a name, a window in milliseconds and a limit.
abbrev pub resource_with : Hash → List ℕ → ℕ → ℕ → Resource
resource_with hash name ms rate_limit = record {
  name = name;
  window_ms = ms;
  rate_limit = rate_limit;
  id = content_id hash resource_id_domain name (ms ∷ rate_limit ∷ []);
}

derive_bucket_id_lem :
    (hash : Hash) (name : List ℕ) (ms rate_limit : ℕ)
    → IsHash hash
    → length name < 2 ^ 32
    → derive_bucket_id {E = ConfigurationError} hash name ms rate_limit
      ≡ ok (content_id hash resource_id_domain name (ms ∷ rate_limit ∷ []))
unfolding derive_bucket_id
derive_bucket_id_lem hash name ms rate_limit h fits =
    derive_content_id_lem hash resource_id_domain name (ms ∷ rate_limit ∷ []) h fits

err-ok : {E A : Type 0} {x : E} {a : A} → err x ≡ ok a → ⊥
err-ok h = absurd (cc)

new_resource_bad :
    (hash : Hash) (name : List ℕ) (window : Duration) (rate_limit : ℕ)
    → bad_name name ≡ true
    → new_resource hash name window rate_limit ≡ err (invalid_name "resource")
unfolding new_resource
new_resource_bad hash name window rate_limit bad = rw bad refl

-- What `Resource::new` answers, by its window in milliseconds.
new_resource_from :
    (hash : Hash) (name : List ℕ) (window : Duration) (rate_limit : ℕ)
    → IsHash hash
    → bad_name name ≡ false
    → new_resource hash name window rate_limit ≡ (
        duration_to_u32_ms window "resource window" >>= λ ms.
        ok (resource_with hash name ms rate_limit))
unfolding new_resource
new_resource_from hash name window rate_limit h good = rw good (
    bind_cong (duration_to_u32_ms window "resource window")
      λ ms. rw (derive_bucket_id_lem hash name ms rate_limit h (good_name name good).1) refl)

-- A name that is there and fits, and a window that is a positive whole number of milliseconds and
-- fits: with these and no others `Resource::new` answers a resource, and that one is of the name, the
-- window and the limit given, with the id of this content. The hash is taken to give 32 bytes.
pub new_resource_exact :
    (hash : Hash) (name : List ℕ) (window : Duration) (rate_limit ms : ℕ)
    → IsHash hash
    → IsDuration window
    → (new_resource hash name window rate_limit ≡ ok (resource_with hash name ms rate_limit)) ↔ (
        (0 < length name)
        × (length name < 2 ^ 32)
        × (from_millis ms ≡ window)
        × (0 < ms)
        × (ms < 2 ^ 32))
new_resource_exact hash name window rate_limit ms h hd = (
  λ e. elim (Bool-cases (bad_name name)) [
    | inl bad ↦ absurd (err-ok (sym (new_resource_bad hash name window rate_limit bad) ∙ e))
    | inr good ↦
        let (some_name, fits) = good_name name good in
        let millis =
          bind_ok-inj (duration_to_u32_ms window "resource window")
            (λ x. resource_with hash name x rate_limit) (λ r. r.window_ms) ms (λ x. refl)
            (sym (new_resource_from hash name window rate_limit h good) ∙ e) in
        let (same, some_ms, ms_fits) =
          (duration_to_u32_ms_exact window "resource window" ms hd).0 millis in
        (some_name, fits, same, some_ms, ms_fits)
  ],
  λ (some_name, fits, same, some_ms, ms_fits).
      let good : bad_name name ≡ false = ground arith in
      new_resource_from hash name window rate_limit h good
      ∙ rw ((duration_to_u32_ms_exact window "resource window" ms hd).1 (same, some_ms, ms_fits))
          refl,
)

-- A resource that `Resource::new` answers has a name, a window, and the id of its content.
pub new_resource-IsResource :
    (hash : Hash) (name : List ℕ) (window : Duration) (rate_limit : ℕ)
    → IsHash hash
    → Ensures (IsResource hash) (new_resource hash name window rate_limit)
new_resource-IsResource hash name window rate_limit h = elim (Bool-cases (bad_name name)) [
  | inl bad ↦ rw (new_resource_bad hash name window rate_limit bad) ensures_err
  | inr good ↦
      let (some_name, fits) = good_name name good in
      rw (new_resource_from hash name window rate_limit h good) (
        Ensures-bind (duration_to_u32_ms window "resource window") _ (
          Ensures-map
            (λ ms (some_ms, ms_fits). ensures_ok (record {
              some_name = some_name;
              name_fits = fits;
              some_window = some_ms;
              window_fits = ms_fits;
              names_content = refl;
            }))
            (duration_bounds window "resource window")))
]

check_counts_some :
    (a b : String) (m n : ℕ)
    → Ensures (λ _. (0 < m) × (0 < n)) (check_counts ((a, m) ∷ (b, n) ∷ []))
unfolding check_counts
check_counts_some a b m n =
    Ensures-bail (m == 0) _ _
      λ em. Ensures-bail (n == 0) _ _ λ en. ensures_ok (ground arith, ground arith)

derive_latency_tracker_id_lem :
    (hash : Hash) (name : List ℕ) (ttl max min : ℕ)
    → IsHash hash
    → length name < 2 ^ 32
    → derive_latency_tracker_id {E = ConfigurationError} hash name ttl max min
      ≡ ok (content_id hash latency_tracker_id_domain name (ttl ∷ max ∷ min ∷ []))
unfolding derive_latency_tracker_id
derive_latency_tracker_id_lem hash name ttl max min h fits =
    derive_content_id_lem hash latency_tracker_id_domain name (ttl ∷ max ∷ min ∷ []) h fits

-- Whatever the builder holds, `build` returns without a panic, and a tracker that it answers has a
-- name, a sample lifetime and counts that are not 0, and the id of its content. The hash is taken
-- to give 32 bytes.
pub build_tracker-IsTracker :
    (hash : Hash) (b : LatencyTrackerBuilder)
    → IsHash hash
    → Ensures (IsTracker hash) (build_tracker hash b)
unfolding build_tracker
build_tracker-IsTracker hash b h = Ensures-bail (bad_name b.builder_name) _ _ λ good.
    let (some_name, fits) = good_name b.builder_name good in
    Ensures-bind (ok_or b.builder_ttl _) _ (
      Ensures-map
        (λ ttl _. Ensures-bind (duration_to_u32_ms ttl "sample lifetime") _ (
          Ensures-map
            (λ ms (some_ms, ms_fits). Ensures-bind (ok_or b.builder_max _) _ (
              Ensures-map
                (λ max _. Ensures-bind (ok_or b.builder_min _) _ (
                  Ensures-map
                    (λ min _. Ensures-bind (check_counts _) _ (
                      Ensures-map
                        (λ _ (some_max, some_min).
                          rw (derive_latency_tracker_id_lem hash b.builder_name ms max min h fits) (
                            ensures_ok (record {
                              some_name = some_name;
                              name_fits = fits;
                              some_ttl = some_ms;
                              ttl_fits = ms_fits;
                              some_max = some_max;
                              some_min = some_min;
                              names_content = refl;
                            })))
                        (check_counts_some _ _ max min)))
                    (Ensures-ok_or b.builder_min _)))
                (Ensures-ok_or b.builder_max _)))
            (duration_bounds ttl "sample lifetime")))
        (Ensures-ok_or b.builder_ttl _))
