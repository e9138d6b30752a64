-- ===== src/Client/New/Fresh.antt =====
-- How old the servers are that the calls of a client of src/client.rs use.
use rl_rust_client.Common.{
  Bool-cases, ltb→lt, ℕ, ◌+◌, ◌-◌, ◌*◌, ◌/◌, ◌^◌, ◌≤◌, ◌<◌, ◌≡◌, refl, sym, subst, arith, min, ltb,
  ltb-false→le, List, [], ◌∷◌, ◌++◌, Bool, true, false, if◌then◌else◌, ◌⊎◌, inl, inr, Result, ok,
  err, panic,
}
use mathlib.Core.List.{append-nil, append_assoc}
use rl_rust_client.Error.{CoreError}
use rl_rust_client.ApiKey.Bech32.{Text}
use rl_rust_client.Client.Targets.{Resolver, ServerEndpoint, refresh_servers}
use rl_rust_client.Client.Refresh.{
  nanos_per_sec, Discovery, is_due, store_servers, maybe_periodic_dns_refresh,
}
use rl_rust_client.Client.New.{initial_last_dns_refresh}

-- A call, with what the resolver answers during it, and the instants of its test and of its refresh.
pub record Call : Type 0 where
  pub resolver : Resolver
  pub now : ℕ
  pub found_at : ℕ

module _ (domain : Text) (interval : ℕ) where
  abbrev pub refreshed : Call → Discovery → Discovery × Result CoreError (Unit {0})
  refreshed call d =
      maybe_periodic_dns_refresh call.resolver domain interval call.now call.found_at d

  -- The state behind some calls, whichever of them fail.
  abbrev pub calls_from : Discovery → List Call → Discovery
  calls_from d [] = d
  calls_from d (call ∷ calls) = calls_from (refreshed call d).0 calls

  -- The servers are what the resolver answered to one of the calls.
  abbrev pub Found : Discovery → Call → Type 0
  Found d call =
      (refresh_servers call.resolver domain ≡ ok d.servers) × (d.last_dns_refresh ≡ call.found_at)

  abbrev pub FoundIn : List Call → Discovery → Type 0
  FoundIn [] d = ⊥
  FoundIn (call ∷ calls) d = Found d call ⊎ FoundIn calls d

  -- A call either refreshes, or leaves the state, and then it succeeds only if no refresh is due.
  abbrev Refreshes : Call → Discovery → Discovery × Result CoreError (Unit {0}) → Type 0
  Refreshes call d (d', answer) =
      Found d' call ⊎ ((d' ≡ d) × (answer ≡ ok tt → is_due interval call.now d ≡ false))

  store-Refreshes :
      (call : Call) (d : Discovery) (r : Result CoreError (List ServerEndpoint))
      → refresh_servers call.resolver domain ≡ r
      → Refreshes call d (store_servers d call.found_at r)
  store-Refreshes call d (ok servers) e = inl (e, refl)
  store-Refreshes call d (err error) e = inr (refl, λ h. absurd (cc))
  store-Refreshes call d panic e = inr (refl, λ h. absurd (cc))

  tested-Refreshes :
      (call : Call) (d : Discovery) (due : Bool)
      → is_due interval call.now d ≡ due
      → Refreshes call d (
          if due
          then store_servers d call.found_at (refresh_servers call.resolver domain)
          else (d, ok tt))
  tested-Refreshes call d true e =
      store-Refreshes call d (refresh_servers call.resolver domain) refl
  tested-Refreshes call d false e = inr (refl, λ h. e)

  refreshed-Refreshes : (call : Call) (d : Discovery) → Refreshes call d (refreshed call d)
  unfolding maybe_periodic_dns_refresh
  refreshed-Refreshes call d = tested-Refreshes call d (is_due interval call.now d) refl

  -- The discovery of a client that was made at some instant.
  abbrev pub first_discovery : ℕ → Discovery
  first_discovery created = record {
    servers = [];
    last_dns_refresh = initial_last_dns_refresh created interval;
  }

  -- The client has no servers yet, since its clock began too late to go back from its construction.
  abbrev pub Unset : ℕ → Discovery → Type 0
  Unset created d = (created < (interval + 1) * nanos_per_sec) × (d ≡ first_discovery created)

  -- The state is that of a refresh by some of the calls, or older than what a test allows.
  Known : ℕ → List Call → Discovery → Type 0
  Known created calls d =
      FoundIn calls d
      ⊎ (Unset created d ⊎ (d.last_dns_refresh + (interval + 1) * nanos_per_sec ≤ created))

  FoundIn-behind :
      (calls : List Call) (call : Call) (d : Discovery)
      → FoundIn calls d
      → FoundIn (calls ++ (call ∷ [])) d
  FoundIn-behind (first ∷ calls) call d (inl h) = inl h
  FoundIn-behind (first ∷ calls) call d (inr h) = inr (FoundIn-behind calls call d h)
  FoundIn-behind [] call d h = absurd h

  FoundIn-last :
      (calls : List Call) (call : Call) (d : Discovery)
      → Found d call
      → FoundIn (calls ++ (call ∷ [])) d
  FoundIn-last [] call d h = inl h
  FoundIn-last (first ∷ calls) call d h = inr (FoundIn-last calls call d h)

  Known-step :
      (created : ℕ) (calls : List Call) (call : Call) (d : Discovery)
      → Known created calls d
      → Known created (calls ++ (call ∷ [])) (refreshed call d).0
  unfolding Known
  Known-step created calls call d known = elim (refreshed-Refreshes call d) [
    | inl found ↦ inl (FoundIn-last calls call _ found)
    | inr (same, _) ↦
        subst
          (λ d'.
            FoundIn (calls ++ (call ∷ [])) d'
            ⊎ (Unset created d' ⊎ (d'.last_dns_refresh + (interval + 1) * nanos_per_sec ≤ created)))
          (sym same)
          (elim known [ inl h ↦ inl (FoundIn-behind calls call d h) | inr old ↦ inr old ])
  ]

  Known-calls :
      (created : ℕ) (before calls : List Call) (d : Discovery)
      → Known created before d
      → Known created (before ++ calls) (calls_from d calls)
  Known-calls created before [] d h = subst (λ l. Known created l d) (sym (append-nil before)) h
  Known-calls created before (call ∷ calls) d h =
      subst (λ l. Known created l (calls_from d (call ∷ calls)))
        (append_assoc before (call ∷ []) calls)
        (Known-calls created (before ++ (call ∷ [])) calls (refreshed call d).0
          (Known-step created before call d h))

  first_past :
      (created : ℕ)
      → interval < 2 ^ 64 - 1
      → ltb created ((interval + 1) * nanos_per_sec) ≡ false
      → (interval + 1) * nanos_per_sec ≤ created
      → initial_last_dns_refresh created interval + (interval + 1) * nanos_per_sec ≤ created
  unfolding initial_last_dns_refresh
  first_past created small early h =
      let fits : min (interval + 1) (2 ^ 64 - 1) ≡ interval + 1 = omega arith in
      rw fits (rw early (omega arith))

  first-Known : (created : ℕ) → interval < 2 ^ 64 - 1 → Known created [] (first_discovery created)
  unfolding Known
  first-Known created small = elim (Bool-cases (ltb created ((interval + 1) * nanos_per_sec))) [
    | inl late ↦ inr (inl (ltb→lt created _ late, refl))
    | inr early ↦ inr (inr (first_past created small early (ltb-false→le created _ early)))
  ]

  -- The servers of a call that succeeds: found by one of the calls, or none yet; and the last instant
  -- of a refresh is not the interval and a second, or more, before the test.
  pub Fresh : ℕ → List Call → Call → Discovery → Type 0
  Fresh created calls call d =
      (FoundIn (calls ++ (call ∷ [])) d ⊎ Unset created d)
      × (call.now < d.last_dns_refresh + (interval + 1) * nanos_per_sec)

  not_due :
      (call : Call) (d : Discovery)
      → is_due interval call.now d ≡ false
      → call.now < d.last_dns_refresh + (interval + 1) * nanos_per_sec
  unfolding is_due
  not_due call d e =
      whole_seconds (ltb-false→le interval ((call.now - d.last_dns_refresh) / nanos_per_sec) e)
    where
      whole_seconds :
          (call.now - d.last_dns_refresh) / nanos_per_sec ≤ interval
          → call.now < d.last_dns_refresh + (interval + 1) * nanos_per_sec
      whole_seconds h = omega arith

  kept-Fresh :
      (created : ℕ) (calls : List Call) (call : Call) (d : Discovery)
      → created ≤ call.now
      → Known created calls d
      → is_due interval call.now d ≡ false
      → Fresh created calls call d
  unfolding Fresh Known
  kept-Fresh created calls call d later (inl h) e =
      (inl (FoundIn-behind calls call d h), not_due call d e)
  kept-Fresh created calls call d later (inr (inl unset)) e = (inr unset, not_due call d e)
  kept-Fresh created calls call d later (inr (inr old)) e =
      let early = not_due call d e in absurd (omega arith)

  -- However the calls of a client before this one ended: if the test and the refresh of this one
  -- succeed, the servers are those that the resolver gave to one of the calls, this one or one
  -- before, and when the test was made that was less than the interval and one second ago: the age
  -- is cut to whole seconds. Where the clock began less than the interval and one second before the
  -- client's construction, it is possible as well that no call has refreshed yet: then the state is
  -- the first one, without servers, and the construction is less than that long before the test. The
  -- interval is taken to be below the last number of 64 bits, this call not to be before the
  -- construction, and its refresh not before its test.
  pub refreshed-Fresh :
      (created : ℕ) (calls : List Call) (call : Call)
      → interval < 2 ^ 64 - 1
      → created ≤ call.now
      → call.now ≤ call.found_at
      → (refreshed call (calls_from (first_discovery created) calls)).1 ≡ ok tt
      → Fresh created calls call (refreshed call (calls_from (first_discovery created) calls)).0
  unfolding Fresh
  refreshed-Fresh created calls call small later after e =
      let d = calls_from (first_discovery created) calls in
      elim (refreshed-Refreshes call d) [
        | inl found ↦ let at = found.1 in (inl (FoundIn-last calls call _ found), omega arith)
        | inr (same, kept) ↦ subst (Fresh created calls call) (sym same) (
            kept-Fresh created calls call d later
              (Known-calls created [] calls (first_discovery created) (first-Known created small))
              (kept e))
      ]
