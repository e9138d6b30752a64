-- ===== src/ApiKey/Bech32/Loop.antt =====
-- The `while` loop of `convert_bits` in src/api_key_codec.rs.
use rl_rust_client.Common.{
  ℕ, zero, suc, ◌+◌, ◌-◌, ◌*◌, ◌/◌, ◌%◌, ◌^◌, ◌≤◌, ◌<◌, ◌≡◌, arith, leb, Bool-cases, inl, inr, List,
  [], ◌∷◌, length,
}
use rl_rust_client.ApiKey.Bech32.{drain}

-- The loop as the language runs it: turns as long as there are enough bits, with what they push, and
-- the bits at the end.
pub data Loops (to_bits acc : ℕ) : ℕ → List ℕ → ℕ → Type 0 where
  stop : (bits : ℕ) → bits < to_bits → Loops to_bits acc bits [] bits
  turn :
      (bits left : ℕ) (out : List ℕ)
      → to_bits ≤ bits
      → Loops to_bits acc (bits - to_bits) out left
      → Loops to_bits acc bits (acc / 2 ^ (bits - to_bits) % 2 ^ to_bits ∷ out) left

-- How the bits are used up.
pub record IsDrained (to_bits acc bits : ℕ) (out : List ℕ) (left : ℕ) : Type 0 where
  pub loops : Loops to_bits acc bits out left
  pub few_left : left < to_bits
  pub all_bits : bits ≡ length out * to_bits + left

add_turn :
    (to_bits bits n left : ℕ)
    → to_bits ≤ bits
    → bits - to_bits ≡ n * to_bits + left
    → bits ≡ suc n * to_bits + left
add_turn to_bits bits n left h e =
    let product : suc n * to_bits ≡ n * to_bits + to_bits = ground arith in omega (arith, product)

-- With as much fuel as there are bits, `drain` is a run of the loop to its end, if a value that is
-- pushed has some bits: the loop ends, fewer bits are left than a value has, and those that are not
-- left are the bits of the values that are pushed.
pub drain-IsDrained :
    (fuel to_bits acc bits : ℕ)
    → 0 < to_bits
    → bits ≤ fuel
    → let (out, left) = drain fuel to_bits acc bits in IsDrained to_bits acc bits out left
drain-IsDrained zero to_bits acc bits some_bits h = record {
  loops = stop bits (omega arith);
  few_left = omega arith;
  all_bits = omega arith;
}
drain-IsDrained (suc fuel) to_bits acc bits some_bits h = elim (Bool-cases (leb to_bits bits)) [
  | inl e ↦
      let rest = drain-IsDrained fuel to_bits acc (bits - to_bits) some_bits (ground arith) in
      let enough : to_bits ≤ bits = ground arith in
      rw e (record {
        loops = turn bits _ _ enough rest.loops;
        few_left = rest.few_left;
        all_bits = add_turn to_bits bits _ _ enough rest.all_bits;
      })
  | inr e ↦
      let few : bits < to_bits = ground arith in
      rw e (record { loops = stop bits few; few_left = few; all_bits = omega arith })
]
