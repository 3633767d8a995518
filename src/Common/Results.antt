-- ===== src/Common/Results.antt =====
-- Go's `(value, error)` pairs, and the loop that returns at its first error.
use mathlib.Core.Path.{◌≡◌, refl}
use mathlib.Core.Logic.{◌⊎◌, inl, inr, ◌↔◌}
use mathlib.Core.List.{List, [], ◌∷◌}
use native.Mathlib.Omega.{arith}
use flooks.Common.Lists.{All, All-map}
use flooks.Common.Tests.{iff_trans}

pub data Result {ℓ} (E : Type ℓ) (A : Type ℓ) : Type ℓ where
  ok : A → Result E A
  err : E → Result E A

infixl 5 ◌>>=◌ ◌>>◌
abbrev pub ◌>>=◌ {ℓ} : {E A B : Type ℓ} → Result E A → (A → Result E B) → Result E B
err e >>= next = err e
ok a >>= next = next a

abbrev pub ◌>>◌ {ℓ} : {E B : Type ℓ} → Result E (Unit {ℓ}) → Result E B → Result E B
checked >> after = checked >>= λ done. after

module _ {E : Type 0} {A : Type 0} where
  -- `for _, x := range xs { if err := check(x); err != nil { return err } }`
  abbrev pub for_each : (A → Result E (Unit {0})) → List A → Result E (Unit {0})
  for_each check [] = ok tt
  for_each check (x ∷ xs) = check x >> for_each check xs

  pub for_each_iff :
      (check : A → Result E (Unit {0})) (xs : List A)
      → (for_each check xs ≡ ok tt) ↔ All (λ x. check x ≡ ok tt) xs
  for_each_iff check [] = (λ _. tt, λ _. refl)
  for_each_iff check (x ∷ xs) = ground (arith, for_each_iff check xs)

  pub Result-cases : (r : Result E A) → ((a : A) × (r ≡ ok a)) ⊎ ((e : E) × (r ≡ err e))
  Result-cases (ok a) = inl (a, refl)
  Result-cases (err e) = inr (e, refl)

pub ok_inj {ℓ} : {E A : Type ℓ} (a b : A) → ◌≡◌ {A = Result E A} (ok a) (ok b) → a ≡ b
ok_inj a b h = cc

pub >>=-eq-ok {ℓ} :
    {E A B : Type ℓ} {b : B} (first : Result E A) (next : A → Result E B)
    → first >>= next ≡ ok b
    → (a : A) × (first ≡ ok a) × (next a ≡ ok b)
>>=-eq-ok (err e) next both = cc
>>=-eq-ok (ok a) next both = (a, refl, both)

pub for_each-All :
    {E A : Type 0} {P : A → Type 0} (check : A → Result E (Unit {0}))
    → ((a : A) → (check a ≡ ok tt) ↔ P a)
    → (xs : List A) → (for_each check xs ≡ ok tt) ↔ All P xs
for_each-All check f xs =
    iff_trans (for_each_iff check xs) (All-map (λ a. (f a).0) xs, All-map (λ a. (f a).1) xs)
