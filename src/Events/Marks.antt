-- ===== src/Events/Marks.antt =====
-- Which events the outbox has as published.
use flooks.Common.{
  ℕ, ◌≡◌, refl, Bool, true, false, some, List, [], ◌∷◌, All, nat_eq, nat_eq_iff, arith,
  if◌then◌else◌,
}
use flooks.Assets.Tables.{EventRow, is_some}
use flooks.Events.{World, mark_row, mark, send}

-- The events of that id are marked as published.
abbrev pub IsPublished : ℕ → List EventRow → Type 0
IsPublished id rows = All (λ (row : EventRow). row.id ≡ id → is_some row.published_at ≡ true) rows

pub mark_row-IsPublished :
    (id now k : ℕ) (rows : List EventRow)
    → IsPublished id rows
    → IsPublished id (mark_row now k rows)
unfolding mark_row
mark_row-IsPublished id now k [] h = tt
mark_row-IsPublished id now k (row ∷ rows) (p, h) =
    (one (nat_eq row.id k) p, mark_row-IsPublished id now k rows h)
  where
    one :
        (b : Bool)
        → (row.id ≡ id → is_some row.published_at ≡ true)
        → (if b then record row { published_at = some now } else row).id ≡ id
        → is_some (if b then record row { published_at = some now } else row).published_at ≡ true
    one true p e = refl
    one false p e = p e

pub mark_row_self : (now k : ℕ) (rows : List EventRow) → IsPublished k (mark_row now k rows)
unfolding mark_row
mark_row_self now k [] = tt
mark_row_self now k (row ∷ rows) =
    (one (nat_eq row.id k) ((nat_eq_iff row.id k).1), mark_row_self now k rows)
  where
    one :
        (b : Bool)
        → (row.id ≡ k → b ≡ true)
        → (if b then record row { published_at = some now } else row).id ≡ k
        → is_some (if b then record row { published_at = some now } else row).published_at ≡ true
    one true p e = refl
    one false p e = absurd (ground (arith, p e))

pub marked-IsPublished :
    (id : ℕ) (b : Bool) (now : ℕ) (e : EventRow) (w : World)
    → IsPublished id w.tables.outbox
    → IsPublished id (if b then mark now e (send e w) else send e w).tables.outbox
marked-IsPublished id true now e w h = mark_row-IsPublished id now e.id w.tables.outbox h
marked-IsPublished id false now e w h = h
