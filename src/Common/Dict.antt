-- ===== src/Common/Dict.antt =====
-- Go's `map[string]V`, as the list of its assignments, the latest first. A program that reads it by
-- key sees no order.
use flooks.Common.{
  String, ◌≡◌, ◌⊎◌, refl, Option, none, some, List, [], ◌∷◌, arith, ◌==◌, eq_iff, if◌then◌else◌,
}

module _ {V : Type 0} where
  -- `v, ok := m[key]`
  unfoldable pub lookup : String → List (String × V) → Option V
  lookup key [] = none
  lookup key (latest ∷ before) = if latest.0 == key then some latest.1 else lookup key before

  -- `m[key] = value`
  unfoldable pub insert : String → V → List (String × V) → List (String × V)
  insert key value before = (key, value) ∷ before

  pub lookup-insert :
      (written read : String) (value : V) (before : List (String × V))
      → lookup read (insert written value before)
        ≡ (if written == read then some value else lookup read before)
  unfolding lookup insert
  lookup-insert written read value before = refl

  -- What is found after a write is what was written, or was there.
  pub lookup-insert_cases :
      (written read : String) (value found : V) (before : List (String × V))
      → lookup read (insert written value before) ≡ some found
      → ((written ≡ read) × (value ≡ found)) ⊎ (lookup read before ≡ some found)
  lookup-insert_cases written read value found before h =
      ground (arith, lookup-insert written read value before, eq_iff written read)
