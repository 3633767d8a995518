-- ===== src/Assets/Versions/View.antt =====
-- The view of the tables as stacks of versions.
use flooks.Common.{
  Bool-cases, inl, inr, ℕ, zero, suc, ◌≡◌, refl, ap, ◌∙◌, Option, none, some, List, [], ◌∷◌,
  find_first, length, nat_eq, ◌&&◌, if◌then◌else◌, arith,
}
use flooks.Common.Int.{pos, eq_ℤ}
use flooks.Assets.Tables.{AssetRow, RevisionRow, Tables, asset_at, revision_at, is_some}
use flooks.Assets.Invariant.{IsConsistent, countdown, latest, revisions_of}
use flooks.Assets.Versions.{Version, Item, View, numbered}

abbrev pub version_of : RevisionRow → Version
version_of v = record { document = v.document; summary = v.summary }

abbrev pub versions_of : ℕ → List RevisionRow → List Version
versions_of id [] = []
versions_of id (v ∷ vs) =
    let rest = versions_of id vs in if nat_eq v.asset_id id then version_of v ∷ rest else rest

abbrev pub stack : List Version → AssetRow → Item
stack versions a = record {
  kind = a.kind;
  slug = a.slug;
  title = a.title;
  archived = is_some a.archived_at;
  versions = versions;
}

abbrev pub item_of : List Version → Option AssetRow → Option Item
item_of versions none = none
item_of versions (some a) = some (stack versions a)

unfoldable pub view : Tables → View
view t id = item_of (versions_of id t.revisions) (asset_at id t)

length-countdown : (n : ℕ) → length (countdown n) ≡ n
length-countdown zero = refl
length-countdown (suc n) = ap (λ k. suc k) (length-countdown n)

length-versions_of :
    (id : ℕ) (vs : List RevisionRow) → length (versions_of id vs) ≡ length (revisions_of id vs)
length-versions_of id [] = refl
length-versions_of id (v ∷ vs) = ground (arith, length-versions_of id vs)

-- An asset has as many versions as the number of its latest revision.
pub height :
    (id : ℕ) (t : Tables)
    → IsConsistent t
    → length (versions_of id t.revisions) ≡ latest (asset_at id t)
height id t c =
    length-versions_of id t.revisions
    ∙ ap length (c.revisions id)
    ∙ length-countdown (latest (asset_at id t))

abbrev pub versioned : Option RevisionRow → Option Version
versioned none = none
versioned (some v) = some (version_of v)

numbered-countdown :
    (id r n : ℕ) (vs : List RevisionRow)
    → revisions_of id vs ≡ countdown n
    → numbered r (versions_of id vs)
      ≡ versioned (find_first (λ v. nat_eq v.asset_id id && eq_ℤ (pos v.revision) (pos r)) vs)
unfolding numbered
numbered-countdown id r n [] c = refl
numbered-countdown id r zero (w ∷ vs) c = ground (arith, numbered-countdown id r zero vs)
numbered-countdown id r (suc n) (w ∷ vs) c = elim (Bool-cases (nat_eq w.asset_id id)) [
  | inr other ↦ rw other (numbered-countdown id r (suc n) vs (rw other at c))
  | inl same ↦
      let c' : w.revision ∷ revisions_of id vs ≡ countdown (suc n) = rw same at c in
      let tall : length (versions_of id vs) ≡ n =
        length-versions_of id vs ∙ ap length (tail_inj c') ∙ length-countdown n in
      elim (Bool-cases (nat_eq w.revision r)) [
        | inl at_r ↦ rw (same, at_r) (ground (arith, tall))
        | inr not_r ↦ rw (same, not_r) (ground (arith, tall, numbered-countdown id r n vs))
      ]
]
  where
    tail_inj : {a b : ℕ} {xs ys : List ℕ} → a ∷ xs ≡ b ∷ ys → xs ≡ ys
    tail_inj q = cc

-- The versions of an asset are its revisions, by their numbers.
pub numbered-revision_at :
    (id r : ℕ) (t : Tables)
    → IsConsistent t
    → numbered r (versions_of id t.revisions) ≡ versioned (revision_at id (pos r) t)
unfolding revision_at
numbered-revision_at id r t c =
    numbered-countdown id r (latest (asset_at id t)) t.revisions (c.revisions id)
