-- ===== src/Client/Response/Wire.antt =====
-- The PDU of a rate response in the layout of the wire protocol, and `parse_rate_response_pdu` of
-- src/client.rs.
use rl_rust_client.Common.{
  all, ltb, ◌==◌, ◌&&◌, ℕ, suc, ◌+◌, ◌*◌, ◌<◌, ◌≡◌, refl, sym, ap, ◌∙◌, arith, List, [], ◌∷◌, ◌++◌,
  map, length, take, All, length-append, drop-append, Bool, le→ltb-false, Result, ok,
}
use rl_rust_client.Common.Bytes.{
  to_le_bytes, Fields, contents, contents-append, length-contents, slice, slice-append, slice_from,
  slice_from_lem, u16_at-contents,
}
use rl_rust_client.Error.{CoreError}
use rl_rust_client.Protocol.{pdu_rate_response, GuardBlock, ResourceBlock}
use rl_rust_client.Protocol.RoundTrip.{
  IsGuardBlock, IsResourceBlock, guard_fields, resource_fields, read_guard_block_lem,
  read_resource_block_lem,
}
use rl_rust_client.Client.Response.{
  GuardResult, ResourceResult, RateLimitResult, guard_result, resource_result, is_success,
  parse_guards, parse_resources, parse_rate_response_pdu,
}
use mathlib.Core.List.{append_assoc}

abbrev pub wire_guards : List GuardBlock → List ℕ → List ℕ
wire_guards [] rest = rest
wire_guards (g ∷ gs) rest = contents (guard_fields g) (wire_guards gs rest)

abbrev pub wire_resources : List ResourceBlock → List ℕ → List ℕ
wire_resources [] rest = rest
wire_resources (r ∷ rs) rest = contents (resource_fields r) (wire_resources rs rest)

at_end :
    (pre post : List ℕ) (a : ℕ)
    → length pre ≡ a
    → ◌≡◌ {A = Result CoreError (List ℕ)} (slice_from (pre ++ post) a) (ok post)
at_end pre post a h =
    slice_from_lem {E = CoreError} (pre ++ post) a (omega (arith, length-append {0} pre post))
    ∙ ap ok (drop-append a pre post h)

length-wire_guards :
    (gs : List GuardBlock) (rest : List ℕ)
    → All IsGuardBlock gs
    → length (wire_guards gs rest) ≡ 36 * length gs + length rest
length-wire_guards [] rest h = omega arith
length-wire_guards (g ∷ gs) rest (hg, h) = omega (
  arith,
  length-contents (guard_fields g) (wire_guards gs rest) (omega arith),
  length-wire_guards gs rest h,
)

length-wire_resources :
    (rs : List ResourceBlock) (rest : List ℕ)
    → All IsResourceBlock rs
    → length (wire_resources rs rest) ≡ 28 * length rs + length rest
length-wire_resources [] rest h = omega arith
length-wire_resources (r ∷ rs) rest (hr, h) = omega (
  arith,
  length-contents (resource_fields r) (wire_resources rs rest) (omega arith),
  length-wire_resources rs rest h,
)

parse_guards_lem :
    (gs : List GuardBlock) (pre rest : List ℕ) (pos : ℕ)
    → All IsGuardBlock gs
    → length pre ≡ pos
    → parse_guards (length gs) (pre ++ wire_guards gs rest) pos
      ≡ ok (map guard_result gs, pos + 36 * length gs)
unfolding parse_guards
parse_guards_lem [] pre rest pos h e = ap (λ (n : ℕ). ok ([], n)) (omega arith)
parse_guards_lem (g ∷ gs) pre rest pos (hg, h) e = rw (
  le→ltb-false (length (pre ++ wire_guards (g ∷ gs) rest)) (pos + 36) (
      omega (
        arith,
        length-append {0} pre (wire_guards (g ∷ gs) rest),
        length-wire_guards (g ∷ gs) rest (hg, h),
      )),
  at_end pre (wire_guards (g ∷ gs) rest) pos e,
  read_guard_block_lem g (wire_guards gs rest) hg,
  next,
  parse_guards_lem gs (pre ++ contents (guard_fields g) []) rest (pos + 36) h (
      omega (
        arith,
        length-append {0} pre (contents (guard_fields g) []),
        length-contents (guard_fields g) [] (omega arith),
      )),
  end,
)
  where
    next :
        pre ++ contents (guard_fields g) (wire_guards gs rest)
        ≡ (pre ++ contents (guard_fields g) []) ++ wire_guards gs rest
    next =
        ap (λ l. pre ++ l) (sym (contents-append (guard_fields g) (wire_guards gs rest)))
        ∙ sym (append_assoc pre (contents (guard_fields g) []) (wire_guards gs rest))

    end : pos + 36 + 36 * length gs ≡ pos + 36 * suc (length gs)
    end = omega arith

parse_resources_lem :
    (rs : List ResourceBlock) (pre rest : List ℕ) (pos : ℕ)
    → All IsResourceBlock rs
    → length pre ≡ pos
    → parse_resources (length rs) (pre ++ wire_resources rs rest) pos
      ≡ ok (map resource_result rs, pos + 28 * length rs)
unfolding parse_resources
parse_resources_lem [] pre rest pos h e = ap (λ (n : ℕ). ok ([], n)) (omega arith)
parse_resources_lem (r ∷ rs) pre rest pos (hr, h) e = rw (
  le→ltb-false (length (pre ++ wire_resources (r ∷ rs) rest)) (pos + 28) (
      omega (
        arith,
        length-append {0} pre (wire_resources (r ∷ rs) rest),
        length-wire_resources (r ∷ rs) rest (hr, h),
      )),
  at_end pre (wire_resources (r ∷ rs) rest) pos e,
  read_resource_block_lem r (wire_resources rs rest) hr,
  next,
  parse_resources_lem rs (pre ++ contents (resource_fields r) []) rest (pos + 28) h (
      omega (
        arith,
        length-append {0} pre (contents (resource_fields r) []),
        length-contents (resource_fields r) [] (omega arith),
      )),
  end,
)
  where
    next :
        pre ++ contents (resource_fields r) (wire_resources rs rest)
        ≡ (pre ++ contents (resource_fields r) []) ++ wire_resources rs rest
    next =
        ap (λ l. pre ++ l) (sym (contents-append (resource_fields r) (wire_resources rs rest)))
        ∙ sym (append_assoc pre (contents (resource_fields r) []) (wire_resources rs rest))

    end : pos + 28 + 28 * length rs ≡ pos + 28 * suc (length rs)
    end = omega arith

-- What a response says: its blocks, and the parameters that stand behind them.
pub record ResponseBlocks : Type 0 where
  pub guards : List GuardBlock
  pub resources : List ResourceBlock
  pub parameters : List ℕ

abbrev pub count_fields : ResponseBlocks → Fields
count_fields b = (2, to_le_bytes 2 (length b.guards)) ∷ (2, to_le_bytes 2 (length b.resources)) ∷ []

abbrev pub wire_body : ResponseBlocks → List ℕ
wire_body b =
    contents (count_fields b) (wire_guards b.guards (wire_resources b.resources b.parameters))

-- The size of the PDU, its header of 8 bytes included.
abbrev pub wire_size : ResponseBlocks → ℕ
wire_size b = 12 + 36 * length b.guards + 28 * length b.resources + length b.parameters

abbrev pub pdu_fields : ResponseBlocks → List ℕ → Fields
pdu_fields b reserved =
    (2, to_le_bytes 2 pdu_rate_response) ∷ (2, to_le_bytes 2 (wire_size b)) ∷ (4, reserved) ∷ []

-- The PDU, with bytes behind it that do not belong to it.
abbrev pub wire_pdu : ResponseBlocks → List ℕ → List ℕ → List ℕ
wire_pdu b reserved extra = contents (pdu_fields b reserved) (wire_body b ++ extra)

pub record IsResponse (b : ResponseBlocks) : Type 0 where
  pub guards_fit : All IsGuardBlock b.guards
  pub resources_fit : All IsResourceBlock b.resources
  pub size_fits : wire_size b < 65536

length-wire_body : (b : ResponseBlocks) → IsResponse b → 8 + length (wire_body b) ≡ wire_size b
length-wire_body b h =
    let after = wire_resources b.resources b.parameters in
    omega (
      arith,
      length-contents (count_fields b) (wire_guards b.guards after) (omega arith),
      length-wire_guards b.guards after h.guards_fit,
      length-wire_resources b.resources b.parameters h.resources_fit,
    )

-- What the blocks of a response say.
abbrev pub expected_guard : GuardBlock → GuardResult
expected_guard g = record {
  latency_tracker_id = g.latency_tracker_id;
  threshold_ms = g.latency_threshold;
  current_latency_ms = g.current_latency;
  passed = ltb g.current_latency g.latency_threshold;
}

abbrev pub expected_resource : ResourceBlock → ResourceResult
expected_resource r = record {
  bucket_id = r.bucket_id;
  tokens_deficit = r.tokens_requested;
  actual_rate = r.rate_limit;
}

-- The result that the response stands for: a success if every guard's latency is below its
-- threshold and no resource has a deficit.
abbrev pub expected_result : ResponseBlocks → ℕ → Bool → RateLimitResult
expected_result b server_id feedback = record {
  success =
      all (λ g. ltb g.current_latency g.latency_threshold) b.guards
      && all (λ r. r.tokens_requested == 0) b.resources;
  guard_results = map expected_guard b.guards;
  resource_results = map expected_resource b.resources;
  server_id = server_id;
  steering_feedback = feedback;
}

all-map :
    {A B : Type 0} (f : A → B) (p : B → Bool) (xs : List A)
    → all p (map f xs) ≡ all (λ x. p (f x)) xs
all-map f p [] = refl
all-map f p (x ∷ xs) = ap (λ b. p (f x) && b) (all-map f p xs)

is_success-map :
    (gs : List GuardBlock) (rs : List ResourceBlock)
    → is_success (map guard_result gs) (map resource_result rs) ≡ (
        all (λ g. ltb g.current_latency g.latency_threshold) gs
        && all (λ r. r.tokens_requested == 0) rs)
is_success-map gs rs =
    ap (λ b. b && all (λ r. r.tokens_deficit == 0) (map resource_result rs))
      (all-map guard_result (λ g. g.passed) gs)
    ∙ ap (λ b. all (λ g. ltb g.current_latency g.latency_threshold) gs && b)
        (all-map resource_result (λ r. r.tokens_deficit == 0) rs)

wire_guards-append :
    (gs : List GuardBlock) (rest : List ℕ) → wire_guards gs [] ++ rest ≡ wire_guards gs rest
wire_guards-append [] rest = refl
wire_guards-append (g ∷ gs) rest =
    rw
      (
        ← contents-append (guard_fields g) (wire_guards gs []),
        append_assoc (contents (guard_fields g) []) (wire_guards gs []) rest,
        wire_guards-append gs rest,
      )
      (contents-append (guard_fields g) (wire_guards gs rest))

parse_body :
    (b : ResponseBlocks) (rest : List ℕ)
    → IsResponse b
    → let body =
        contents (count_fields b) (wire_guards b.guards (wire_resources b.resources rest)) in
      (parse_guards (length b.guards) body 4
        ≡ ok (map guard_result b.guards, 4 + 36 * length b.guards))
      × (parse_resources (length b.resources) body (4 + 36 * length b.guards)
          ≡ ok
              (map resource_result b.resources, 4 + 36 * length b.guards + 28 * length b.resources))
parse_body b rest h = (
  parse_guards_lem b.guards counts after 4 h.guards_fit refl,
  rw (← wire_guards-append b.guards after) (
      parse_resources_lem b.resources (counts ++ wire_guards b.guards []) rest
        (4 + 36 * length b.guards) h.resources_fit
        (omega (arith, length-wire_guards b.guards [] h.guards_fit))),
)
  where
    counts : List ℕ
    counts = contents (count_fields b) []

    after : List ℕ
    after = wire_resources b.resources rest

pub parse_rate_response_pdu_lem :
    (b : ResponseBlocks) (reserved extra : List ℕ) (server_id : ℕ) (feedback : Bool)
    → IsResponse b
    → length reserved ≡ 4
    → parse_rate_response_pdu (wire_pdu b reserved extra) server_id feedback
      ≡ ok (expected_result b server_id feedback)
unfolding parse_rate_response_pdu
parse_rate_response_pdu_lem b reserved extra server_id feedback h hr =
    rw
      (
        le→ltb-false (length pdu) 8 (omega (arith, long)),
        u16_at-contents {E = CoreError} [] tt pdu_rate_response _ (omega arith),
        u16_at-contents {E = CoreError} (take 1 f) (omega arith) (wire_size b) _ h.size_fits,
        le→ltb-false (wire_size b) 8 (omega arith),
        le→ltb-false (length pdu) (wire_size b) (omega (arith, long, size)),
        cut,
        le→ltb-false (length (wire_body b)) 4 (omega (arith, size)),
        u16_at-contents {E = CoreError} [] tt (length b.guards) _ (omega (arith, h.size_fits)),
        u16_at-contents {E = CoreError} (take 1 (count_fields b)) (omega arith) (length b.resources)
            _ (omega (arith, h.size_fits)),
        (parse_body b b.parameters h).0,
        (parse_body b b.parameters h).1,
      )
      (ap (λ success. ok (record (expected_result b server_id feedback) { success = success }))
        (is_success-map b.guards b.resources))
  where
    f : Fields
    f = pdu_fields b reserved

    pdu : List ℕ
    pdu = wire_pdu b reserved extra

    size : 8 + length (wire_body b) ≡ wire_size b
    size = length-wire_body b h

    long : length pdu ≡ 8 + length (wire_body b) + length extra
    long = omega (
      arith,
      hr,
      length-contents f (wire_body b ++ extra) (omega arith),
      length-append {0} (wire_body b) extra,
    )

    cut : ◌≡◌ {A = Result CoreError (List ℕ)} (slice pdu 8 (wire_size b)) (ok (wire_body b))
    cut = rw (← contents-append f (wire_body b ++ extra)) (
        slice-append {E = CoreError} (contents f []) (wire_body b) extra 8 (wire_size b)
          (omega (arith, length-contents f [] (omega arith))) size)
