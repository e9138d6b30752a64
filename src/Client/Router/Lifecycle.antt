-- ===== src/Client/Router/Lifecycle.antt =====
-- The channel of a request of src/client.rs, from its registration to its drop and after.
use rl_rust_client.Common.{◌≡◌, refl, ap, ◌∙◌, arith, List, [], ◌∷◌, ◌++◌, All}
use rl_rust_client.Client.Router.{
  Uuid, get, Router, no_requests, register, unregister, Turn, registers, drops, turn, run,
}
use rl_rust_client.Client.Router.Routing.{same_id_refl, none_some, contents}
use rl_rust_client.Client.Router.Invariant.{
  IsRouter, run-IsRouter, register-IsRouter, registered_get,
}
use rl_rust_client.Client.Router.Open.{
  IsOther, routed, run-routed, contents-register, contents-unregister,
}
use rl_rust_client.Client.Router.Closed.{run_closed, drop-IsClosed}

no_requests-IsRouter : IsRouter no_requests
unfolding get contents
no_requests-IsRouter = record {
  low = λ id c h. absurd (none_some c h);
  distinct = λ id other c h k. absurd (none_some c h);
  unused = λ c h. refl;
}

run-append : (xs ys : List Turn) (r : Router) → run r (xs ++ ys) ≡ run (run r xs) ys
unfolding run
run-append [] ys r = refl
run-append (t ∷ xs) ys r = run-append xs ys (turn r t)

run_split :
    (before : List Turn) (id : Uuid) (during after : List Turn)
    → run no_requests (before ++ (registers id ∷ (during ++ (drops id ∷ after))))
      ≡ run (unregister (run (register (run no_requests before) id) during) id) after
unfolding run turn
run_split before id during after =
    run-append before (registers id ∷ (during ++ (drops id ∷ after))) no_requests
    ∙ run-append during (drops id ∷ after) (register (run no_requests before) id)

-- A request of the id `id` makes its channel, and drops its registration later. Between the two, other
-- requests come and go, datagrams arrive, and the router sends, in any order; after the drop anything
-- may happen, a request with the same id included. Then what was sent into the channel, or is on
-- its way, is exactly the packets that carried `id` between the two, in the order of their arrival.
pub run-contents :
    (before : List Turn) (id : Uuid) (during after : List Turn)
    → All (IsOther id) during
    → let r = run no_requests before in
      contents
        (run no_requests (before ++ (registers id ∷ (during ++ (drops id ∷ after)))))
        r.channels
      ≡ routed id during
run-contents before id during after others =
    let r = run no_requests before in
    let c = r.channels in
    let v = run-IsRouter before no_requests no_requests-IsRouter in
    let r' = register r id in
    let (there, routed_all) =
      run-routed during r' id c (register-IsRouter r id v)
        (registered_get r id id ∙ rw (same_id_refl id) refl) others in
    let v' = run-IsRouter during r' (register-IsRouter r id v) in
    ap (λ s. contents s c) (run_split before id during after)
    ∙ run_closed after (unregister (run r' during) id) c
        (drop-IsClosed (run r' during) id c v' there)
    ∙ contents-unregister (run r' during) id c
    ∙ routed_all
    ∙ ap (λ l. l ++ routed id during) (contents-register r id c ∙ v.unused c (omega arith))
