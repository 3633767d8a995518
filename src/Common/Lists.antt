-- ===== src/Common/Lists.antt =====
-- Lists over the native numbers, and predicates on lists by recursion.
use Prim.Native.Nat.{ℕ, zero, suc, ◌+◌}
use mathlib.Core.Path.{◌≡◌, subst}
use mathlib.Core.Logic.{◌⊎◌, inl, inr}
use mathlib.Core.Bool.{Bool, true, false}
use mathlib.Core.Option.{Option, none, some}
use mathlib.Core.List.{List, [], ◌∷◌, ◌++◌}
use native.Mathlib.Omega.{arith}
use flooks.Common.Tests.{if◌then◌else◌, Bool-cases}

module _ {ℓ} {A : Type ℓ} where
  abbrev pub length : List A → ℕ
  length [] = 0
  length (x ∷ xs) = suc (length xs)

  abbrev pub get_elem? : List A → ℕ → Option A
  get_elem? [] i = none
  get_elem? (x ∷ xs) zero = some x
  get_elem? (x ∷ xs) (suc i) = get_elem? xs i

  abbrev pub take : ℕ → List A → List A
  take zero xs = []
  take (suc n) [] = []
  take (suc n) (x ∷ xs) = x ∷ take n xs

  -- The first element that passes the test.
  abbrev pub find_first : (A → Bool) → List A → Option A
  find_first p [] = none
  find_first p (x ∷ xs) = if p x then some x else find_first p xs

  abbrev pub keep : (A → Bool) → List A → List A
  keep p [] = []
  keep p (x ∷ xs) = let rest = keep p xs in if p x then x ∷ rest else rest

  pub length-append : (xs ys : List A) → length (xs ++ ys) ≡ length xs + length ys
  length-append [] ys = omega arith
  length-append (x ∷ xs) ys = omega (arith, length-append xs ys)

module _ {ℓ κ} {A : Type ℓ} (P : A → Type κ) where
  -- Every element satisfies the predicate.
  abbrev pub All : List A → Type κ
  All [] = Unit
  All (x ∷ xs) = P x × All xs

  pub All-append : (xs ys : List A) → All xs → All ys → All (xs ++ ys)
  All-append [] ys h k = k
  All-append (x ∷ xs) ys (p, h) k = (p, All-append xs ys h k)

  pub All-keep : (p : A → Bool) (xs : List A) → All xs → All (keep p xs)
  All-keep p [] h = tt
  All-keep p (x ∷ xs) (q, h) = kept (p x) (All-keep p xs h)
    where
      kept : (b : Bool) → All (keep p xs) → All (if b then x ∷ keep p xs else keep p xs)
      kept true k = (q, k)
      kept false k = k

  pub All-take : (n : ℕ) (xs : List A) → All xs → All (take n xs)
  All-take zero xs h = tt
  All-take (suc n) [] h = tt
  All-take (suc n) (x ∷ xs) (q, h) = (q, All-take n xs h)

-- Some element satisfies the predicate.
abbrev pub Any : {A : Type 0} → (A → Type 0) → List A → Type 0
Any P [] = ⊥
Any P (x ∷ xs) = P x ⊎ Any P xs

pub Any-map :
    {A : Type 0} {P Q : A → Type 0} → ((a : A) → P a → Q a) → (xs : List A) → Any P xs → Any Q xs
Any-map f [] h = absurd h
Any-map f (x ∷ xs) (inl h) = inl (f x h)
Any-map f (x ∷ xs) (inr h) = inr (Any-map f xs h)

pub All-map {ℓ κ μ} :
    {A : Type ℓ} {P : A → Type κ} {Q : A → Type μ}
    → ((a : A) → P a → Q a)
    → (xs : List A) → All P xs
    → All Q xs
All-map f [] h = tt
All-map f (x ∷ xs) (p, h) = (f x p, All-map f xs h)

pub All-Any :
    {A : Type 0} (P : A → Type 0) (xs : List A) (a : A) → All P xs → Any (λ x. x ≡ a) xs → P a
All-Any P [] a h k = absurd k
All-Any P (x ∷ xs) a (p, h) (inl e) = subst P e p
All-Any P (x ∷ xs) a (p, h) (inr k) = All-Any P xs a h k

module _ {A : Type 0} (p : A → Bool) where
  -- The search finds an element of the list that passes.
  pub find_first_sound :
      (xs : List A) (a : A) → find_first p xs ≡ some a → (p a ≡ true) × Any (λ x. x ≡ a) xs
  find_first_sound [] a h = ground arith
  find_first_sound (x ∷ xs) a h = ground (arith, find_first_sound xs a)

  -- It finds one exactly when one is there.
  pub find_first-Any :
      (xs : List A) → Any (λ x. p x ≡ true) xs → (a : A) × (find_first p xs ≡ some a)
  find_first-Any [] h = absurd h
  find_first-Any (x ∷ xs) h = elim (Bool-cases (p x)) [
    | inl found ↦ (x, rw found)
    | inr missed ↦ rw missed (find_first-Any xs (later missed h))
  ]
    where
      later : p x ≡ false → (p x ≡ true) ⊎ Any (λ y. p y ≡ true) xs → Any (λ y. p y ≡ true) xs
      later missed (inl found) = cc
      later missed (inr rest) = rest

  pub Any-find_first : (xs : List A) (a : A) → find_first p xs ≡ some a → Any (λ x. p x ≡ true) xs
  Any-find_first [] a h = ground arith
  Any-find_first (x ∷ xs) a h = ground (arith, Any-find_first xs a)
