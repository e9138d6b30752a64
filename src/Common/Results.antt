-- ===== src/Common/Results.antt =====
-- Fallible code: a value, an error of the program, or a panic (a slice or an index out of bounds).
use mathlib.Core.Path.{◌≡◌, refl, sym, ap, ◌∙◌, subst}
use mathlib.Core.Bool.{Bool, true, false}
use mathlib.Core.Option.{Option, none, some}
use mathlib.Core.Logic.{◌⊎◌, inl, inr}

pub data Result {ℓ κ} (E : Type ℓ) (A : Type κ) : Type (ℓ ⊔ κ) where
  ok : A → Result E A
  err : E → Result E A
  panic : Result E A

pub some_inj {ℓ} : {A : Type ℓ} → (a b : A) → ◌≡◌ {A = Option A} (some a) (some b) → a ≡ b
some_inj a b h = cc

infixl 5 ◌>>=◌ ◌>>◌
abbrev pub ◌>>=◌ {ℓ κ μ} :
    {E : Type ℓ} {A : Type κ} {B : Type μ} → Result E A → (A → Result E B) → Result E B
ok a >>= f = f a
err e >>= f = err e
panic >>= f = panic

abbrev pub ◌>>◌ {ℓ μ} : {E : Type ℓ} {B : Type μ} → Result E (Unit {0}) → Result E B → Result E B
m >> k = m >>= λ _. k

-- `if test { return Err(e) }`.
abbrev pub bail {ℓ} : {E : Type ℓ} → Bool → E → Result E (Unit {0})
bail true e = err e
bail false e = ok tt

-- `map_err`.
abbrev pub map_err {ℓ κ μ} :
    {E : Type ℓ} {F : Type κ} {A : Type μ} → (E → F) → Result E A → Result F A
map_err f (ok a) = ok a
map_err f (err e) = err (f e)
map_err f panic = panic

-- `ok_or`.
abbrev pub ok_or {ℓ κ} : {E : Type ℓ} {A : Type κ} → Option A → E → Result E A
ok_or (some a) e = ok a
ok_or none e = err e

-- The code does not panic, and what it returns satisfies `P`.
pub data Ensures {E A : Type 0} (P : A → Type 0) : Result E A → Type 0 where
  ensures_ok : {a : A} → P a → Ensures P (ok a)
  ensures_err : {e : E} → Ensures P (err e)

-- The code does not panic.
abbrev pub Returns : {E A : Type 0} → Result E A → Type 0
Returns = Ensures (λ _. Unit)

abbrev Holds : {E A : Type 0} → (A → Type 0) → Result E A → Type 0
Holds P (ok a) = P a
Holds P _ = Unit

module _ {E : Type 0} where
  pub Ensures-bind :
      {A B : Type 0} {P : B → Type 0} (m : Result E A) (f : A → Result E B)
      → Ensures {E = E} (λ a. Ensures P (f a)) m
      → Ensures P (m >>= f)
  Ensures-bind m f (ensures_ok h) = h
  Ensures-bind m f ensures_err = ensures_err

  -- The same with the equation of the first step kept.
  pub Ensures-keep :
      {A B : Type 0} {P : B → Type 0} (m : Result E A) (f : A → Result E B)
      → Returns m
      → ((a : A) → m ≡ ok a → Ensures P (f a))
      → Ensures P (m >>= f)
  Ensures-keep m f (ensures_ok {a = a} h) k = k a refl
  Ensures-keep m f ensures_err k = ensures_err

  -- What is ensured of a result that is known.
  pub Ensures-at :
      {A : Type 0} {P : A → Type 0} {a : A} (m : Result E A) → Ensures P m → m ≡ ok a → P a
  Ensures-at {P = P} m (ensures_ok h) e = subst (Holds P) e h
  Ensures-at m ensures_err e = absurd (cc)

  -- After a test that did not bail, its negation is known.
  pub Ensures-bail :
      {B : Type 0} {P : B → Type 0} (b : Bool) (e : E) (k : Result E B)
      → (b ≡ false → Ensures P k)
      → Ensures P (bail b e >> k)
  Ensures-bail true e k h = ensures_err
  Ensures-bail false e k h = h refl

  pub Ensures-bail_only : (b : Bool) (e : E) → Returns (bail b e)
  Ensures-bail_only true e = ensures_err
  Ensures-bail_only false e = ensures_ok tt

  pub Ensures-map :
      {A : Type 0} {P Q : A → Type 0} {m : Result E A}
      → ((a : A) → P a → Q a)
      → Ensures P m
      → Ensures Q m
  Ensures-map f (ensures_ok {a = a} h) = ensures_ok (f a h)
  Ensures-map f ensures_err = ensures_err

  -- A call, and what follows it at each value that it may answer.
  pub Ensures-then :
      {A B : Type 0} {P : A → Type 0} {Q : B → Type 0} (m : Result E A) (f : A → Result E B)
      → Ensures P m
      → ((a : A) → P a → Ensures Q (f a))
      → Ensures Q (m >>= f)
  Ensures-then m f (ensures_ok {a = a} h) k = k a h
  Ensures-then m f ensures_err k = ensures_err

  pub Ensures-map_err :
      {F A : Type 0} {P : A → Type 0} (g : F → E) (m : Result F A)
      → Ensures P m
      → Ensures P (map_err g m)
  Ensures-map_err g m (ensures_ok h) = ensures_ok h
  Ensures-map_err g m ensures_err = ensures_err

  pub Ensures-ok_or : {A : Type 0} (o : Option A) (e : E) → Returns (ok_or o e)
  Ensures-ok_or (some a) e = ensures_ok tt
  Ensures-ok_or none e = ensures_err

-- To split on a computed result and keep the equation.
pub Result-cases {ℓ κ} :
    {E : Type ℓ} {A : Type κ} (r : Result E A)
    → ((a : A) × (r ≡ ok a)) ⊎ (((e : E) × (r ≡ err e)) ⊎ (r ≡ panic))
Result-cases (ok a) = inl (a, refl)
Result-cases (err e) = inr (inl (e, refl))
Result-cases panic = inr (inr refl)

abbrev from_ok : {E A B : Type 0} → (B → A) → A → Result E B → A
from_ok back a (ok b) = back b
from_ok back a (err e) = a
from_ok back a panic = a

-- What follows a call, at each of its values.
pub bind_cong :
    {E A B : Type 0} (m : Result E A) {f g : A → Result E B}
    → ((a : A) → f a ≡ g a)
    → (m >>= f) ≡ (m >>= g)
bind_cong (ok a) h = h a
bind_cong (err e) h = refl
bind_cong panic h = refl

-- A value that is wrapped can be told from what it is wrapped in.
pub bind_ok-inj :
    {E A B : Type 0} (m : Result E A) (f : A → B) (back : B → A) (a : A)
    → ((x : A) → back (f x) ≡ x)
    → (m >>= λ x. ok (f x)) ≡ ok (f a)
    → m ≡ ok a
bind_ok-inj (ok x) f back a h e = ap ok (sym (h x) ∙ ap (from_ok back a) e ∙ h a)
bind_ok-inj (err x) f back a h e = absurd (cc)
bind_ok-inj panic f back a h e = absurd (cc)
