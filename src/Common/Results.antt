-- ===== src/Common/Results.antt =====
-- A call of Go that returns a value and an error: `ok a`, or `err e` with the value discarded.
use mathlib.Core.Path.{◌≡◌, refl}
use mathlib.Core.Logic.{◌⊎◌, inl, inr}
use mathlib.Core.Bool.{Bool, true, false}

pub data Result {ℓ κ} (E : Type ℓ) (A : Type κ) : Type (ℓ ⊔ κ) where
  ok : A → Result E A
  err : E → Result E A

-- `if !test { return early }`.
abbrev pub guard {ℓ} : {E : Type ℓ} → Bool → E → Result E (Unit {0})
guard false early = err early
guard true early = ok tt

pub guard-eq-ok {ℓ} :
    {E : Type ℓ} (test : Bool) (early : E) {u : Unit {0}} → guard test early ≡ ok u → test ≡ true
guard-eq-ok false early passes = cc
guard-eq-ok true early passes = refl

module _ {ℓ κ υ} {E : Type ℓ} {A : Type κ} {B : Type υ} where
  infixl 5 ◌>>=◌ ◌>>◌
  -- The call that comes next, unless an error returns early.
  abbrev pub ◌>>=◌ : Result E A → (A → Result E B) → Result E B
  err early >>= next = err early
  ok value >>= next = next value

  abbrev pub ◌>>◌ : Result E A → Result E B → Result E B
  first >> last = first >>= λ ignored. last

  -- A sequence of two calls that returns a value: what each of them returned.
  pub >>=-eq-ok :
      (first : Result E A) (next : A → Result E B) {out : B}
      → (first >>= next) ≡ ok out
      → (mid : A) × (first ≡ ok mid) × (next mid ≡ ok out)
  >>=-eq-ok (err early) next returns = cc
  >>=-eq-ok (ok value) next returns = (value, refl, returns)

pub Result-cases {ℓ κ} :
    {E : Type ℓ} {A : Type κ} (r : Result E A) → ((a : A) × (r ≡ ok a)) ⊎ ((e : E) × (r ≡ err e))
Result-cases (ok a) = inl (a, refl)
Result-cases (err e) = inr (e, refl)

pub Answer-cases {ℓ} :
    {E : Type ℓ} (r : Result E Bool) → (r ≡ ok true) ⊎ (r ≡ ok false) ⊎ ((e : E) × (r ≡ err e))
Answer-cases (ok true) = inl refl
Answer-cases (ok false) = inr (inl refl)
Answer-cases (err e) = inr (inr (e, refl))

-- Two results that are the same value.
pub ok_inj {ℓ κ} :
    {E : Type ℓ} {A : Type κ} {a b : A} → (let r : Result E A = ok a in r) ≡ ok b → a ≡ b
ok_inj same = cc

-- A guard in front of what follows it.
pub guard_step {ℓ κ} :
    {E : Type ℓ} {A : Type κ} {n : A} (test : Bool) (early : E) (next : Result E A)
    → (guard test early >> next) ≡ ok n
    → (test ≡ true) × (next ≡ ok n)
guard_step false early next passes = cc
guard_step true early next passes = (refl, passes)
