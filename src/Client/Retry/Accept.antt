-- ===== src/Client/Retry/Accept.antt =====
-- Which results the receive loops and the rounds of src/client.rs can end with.
use rl_rust_client.Common.{
  ℕ, ◌≡◌, refl, sym, ◌∙◌, ap, List, ◌∷◌, Bool, true, false, ◌||◌, if◌then◌else◌, subst, ltb, Option,
  none, some, Result, ok, err, panic,
}
use rl_rust_client.Error.{CoreError}
use rl_rust_client.Client.Auth.{cookie_hash_cache, aes_key_cache}
use rl_rust_client.Client.Response.{RateLimitResult, peek_server_id}
use rl_rust_client.Client.Peek.{peek_server_id-parse}
use rl_rust_client.Client.Retry.{
  Exchange, ResponsePacket, State, parse_reply, is_disallowed, note_accepted, note, better,
  is_server,
}
use rl_rust_client.Client.Retry.Plain.{
  plain_accepted, plain_checked, plain_result_of, plain_choose, plain_take_first, plain_accept,
  plain_receive_round, plain_receive_final,
}

-- A packet is an answer: it parses, and its server is one of the allowed ones.
abbrev pub IsAnswer : Exchange → ResponsePacket → RateLimitResult → Type 0
IsAnswer x packet result =
    (parse_reply x packet.bytes ≡ ok result)
    × (is_disallowed x.resolved.allowed_server_ids result.server_id ≡ false)

peek_reply :
    (x : Exchange) (packet : ResponsePacket) (result : RateLimitResult)
    → parse_reply x packet.bytes ≡ ok result
    → peek_server_id packet.bytes ≡ ok (some result.server_id)
peek_reply x packet result e =
    peek_server_id-parse x.cipher packet.bytes x.auth_method (cookie_hash_cache x.auth_method)
      (aes_key_cache x.auth_method) result e

pub IsAnswer-accepted :
    (x : Exchange) (packet : ResponsePacket) (result : RateLimitResult)
    → IsAnswer x packet result
    → plain_accepted x packet ≡ some result
unfolding plain_accepted
IsAnswer-accepted x packet result (parsed, allowed) =
    rw (peek_reply x packet result parsed, allowed, parsed) refl

result_of_inv :
    (parsed : Result CoreError RateLimitResult) (result : RateLimitResult)
    → plain_result_of parsed ≡ some result
    → parsed ≡ ok result
result_of_inv (ok r) result e = cc
result_of_inv (err _) result e = absurd (cc)
result_of_inv panic result e = absurd (cc)

else_of :
    (b : Bool) (rest : Option RateLimitResult) (result : RateLimitResult)
    → (if b then none else rest) ≡ some result
    → (b ≡ false) × (rest ≡ some result)
else_of true rest result e = absurd (cc)
else_of false rest result e = (refl, e)

checked_inv :
    (allowed : List ℕ) (peek : Result CoreError (Option ℕ))
    (parsed : Result CoreError RateLimitResult) (result : RateLimitResult)
    → plain_checked allowed peek parsed ≡ some result
    → (id : ℕ) × (peek ≡ ok (some id)) × (parsed ≡ ok result) × (is_disallowed allowed id ≡ false)
checked_inv allowed (ok (some id)) parsed result e =
    let (d, k) = else_of (is_disallowed allowed id) (plain_result_of parsed) result e in
    (id, refl, result_of_inv parsed result k, d)
checked_inv allowed (ok none) parsed result e = absurd (cc)
checked_inv allowed (err _) parsed result e = absurd (cc)
checked_inv allowed panic parsed result e = absurd (cc)

ok-some-inj : {a b : ℕ} → ◌≡◌ {A = Result CoreError (Option ℕ)} (ok (some a)) (ok (some b)) → a ≡ b
ok-some-inj e = cc

pub accepted-IsAnswer :
    (x : Exchange) (packet : ResponsePacket) (result : RateLimitResult)
    → plain_accepted x packet ≡ some result
    → IsAnswer x packet result
unfolding plain_accepted
accepted-IsAnswer x packet result e =
    let (id, peek, parsed, allowed) =
      checked_inv x.resolved.allowed_server_ids (peek_server_id packet.bytes)
        (parse_reply x packet.bytes) result e in
    let same : id ≡ result.server_id = ok-some-inj (sym peek ∙ peek_reply x packet result parsed) in
    (parsed, subst (λ i. is_disallowed x.resolved.allowed_server_ids i ≡ false) same allowed)

-- The state behind an plain_accepted result, with the choice made.
abbrev pub kept : ResponsePacket → RateLimitResult → State → State
kept packet result s = record (note_accepted packet result s) { best = better s.best result }

module _ (x : Exchange) (packet : ResponsePacket) (packets : List ResponsePacket) (s : State) where
  rejected : plain_accepted x packet ≡ none → plain_accept x packet s ≡ (s, none)
  unfolding plain_accept
  rejected e = ap (note packet s) e

  taken :
      (result : RateLimitResult)
      → plain_accepted x packet ≡ some result
      → plain_accept x packet s ≡ (note_accepted packet result s, some result)
  unfolding plain_accept
  taken result e = ap (note packet s) e

  pub receive_round-rejected :
      (oldest : Option ℕ) (round : ℕ)
      → plain_accepted x packet ≡ none
      → plain_receive_round x oldest round (packet ∷ packets) s
        ≡ plain_receive_round x oldest round packets s
  unfolding plain_receive_round
  receive_round-rejected oldest round e =
      ap (plain_choose oldest round (plain_receive_round x oldest round packets)) (rejected e)

  pub receive_round-accepted :
      (oldest : Option ℕ) (round : ℕ) (result : RateLimitResult)
      → plain_accepted x packet ≡ some result
      → plain_receive_round x oldest round (packet ∷ packets) s ≡ (
          if is_server oldest result.server_id || ltb 0 round
          then kept packet result s
          else plain_receive_round x oldest round packets (kept packet result s))
  unfolding plain_receive_round note_accepted
  receive_round-accepted oldest round result e =
      ap (plain_choose oldest round (plain_receive_round x oldest round packets)) (taken result e)

  pub receive_final-rejected :
      plain_accepted x packet ≡ none
      → plain_receive_final x (packet ∷ packets) s ≡ plain_receive_final x packets s
  unfolding plain_receive_final
  receive_final-rejected e = ap (plain_take_first (plain_receive_final x packets)) (rejected e)

  pub receive_final-accepted :
      (result : RateLimitResult)
      → plain_accepted x packet ≡ some result
      → plain_receive_final x (packet ∷ packets) s ≡ (note_accepted packet result s, some result)
  unfolding plain_receive_final
  receive_final-accepted result e =
      ap (plain_take_first (plain_receive_final x packets)) (taken result e)
