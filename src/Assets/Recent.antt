-- ===== src/Assets/Recent.antt =====
-- The list of the assets of a kind that `List` returns.
use mathlib.Core.List.{Perm}
use mathlib.Core.List.Perm
use flooks.Common.{
  ℕ, String, ◌≡◌, refl, none, Bool-cases, inl, inr, List, [], ◌∷◌, map, ok, keep, leb, ◌==◌,
}
use flooks.Assets.Tables.{AssetRow, Tables}
use flooks.Assets.Store.{Asset, Env, scanned, query_rows}
use flooks.Assets.Listing.{insert_desc, sort_desc, IsDescending, sort_desc-IsDescending, list}

module _ {A : Type 0} (key : A → ℕ) where
  insert_desc-perm : (x : A) (ys : List A) → Perm (insert_desc key x ys) (x ∷ ys)
  unfolding insert_desc
  insert_desc-perm x [] = Perm.rfl
  insert_desc-perm x (y ∷ ys) = elim (Bool-cases (leb (key y) (key x))) [
    | inl before ↦ rw before Perm.rfl
    | inr behind ↦ rw behind (Perm.trans (Perm.cons y (insert_desc-perm x ys)) (Perm.swap x y ys))
  ]

  sort_desc-perm : (xs : List A) → Perm (sort_desc key xs) xs
  unfolding sort_desc
  sort_desc-perm [] = Perm.rfl
  sort_desc-perm (x ∷ xs) =
      Perm.trans (insert_desc-perm x (sort_desc key xs)) (Perm.cons x (sort_desc-perm xs))

abbrev pub listed_row : AssetRow → Asset
listed_row a = scanned a none

-- The later update comes first.
abbrev pub IsRecentFirst : List Asset → Type 0
IsRecentFirst items = IsDescending (λ (a : Asset). a.updated_at) items

map-IsRecentFirst :
    (rows : List AssetRow)
    → IsDescending (λ (a : AssetRow). a.updated_at) rows
    → IsRecentFirst (map listed_row rows)
map-IsRecentFirst [] h = tt
map-IsRecentFirst (x ∷ []) h = tt
map-IsRecentFirst (x ∷ y ∷ ys) (p, h) = (p, map-IsRecentFirst (y ∷ ys) h)

-- Over a connection that carries the query, `List` returns the rows of the kind, archived ones
-- too, each once and without its document, and the later update first.
pub list-perm :
    (env : Env) (kind : String) (t : Tables)
    → env.fault query_rows ≡ none
    → (items : List Asset) × (list env kind t ≡ ok items)
      × Perm items (map listed_row (keep (λ (a : AssetRow). a.kind == kind) t.assets))
      × IsRecentFirst items
unfolding list
list-perm env kind t q =
    let rows = keep (λ (a : AssetRow). a.kind == kind) t.assets in
    (
      map listed_row (sort_desc (λ (a : AssetRow). a.updated_at) rows),
      rw q refl,
      Perm.map listed_row (sort_desc-perm (λ (a : AssetRow). a.updated_at) rows),
      map-IsRecentFirst _ (sort_desc-IsDescending (λ (a : AssetRow). a.updated_at) rows),
    )
