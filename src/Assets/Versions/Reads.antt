-- ===== src/Assets/Versions/Reads.antt =====
-- What `Get` reads, in the view.
use flooks.Common.{
  ℕ, String, ◌≡◌, refl, sym, ap, ◌∙◌, true, ◌&&◌, Bool-cases, inl, inr, Option, none, some,
  Option-cases, List, [], ◌∷◌, Result, ok, err, find_first, length, nat_eq, arith,
}
use flooks.Common.Int.{ℤ, pos, negsuc, eq_ℤ}
use flooks.Assets.Tables.{
  AssetRow, RevisionRow, Tables, StoreError, empty, asset_at, revision_at, fits_int4,
}
use flooks.Assets.Store.{Asset, Codec, Env, query_rows, joined, wanted, get, document_of}
use flooks.Assets.Invariant.{IsConsistent, latest}
use flooks.Assets.History.{Reach, Reach-IsConsistent}
use flooks.Assets.Versions.{Item, read, ◌>>?◌}
use flooks.Assets.Versions.View.{stack, versions_of, versioned, view, height, numbered-revision_at}

no_negative : (id n : ℕ) (t : Tables) → revision_at id (negsuc n) t ≡ none
unfolding revision_at
no_negative id n t = none_of t.revisions
  where
    none_of :
        (vs : List RevisionRow)
        → find_first (λ v. nat_eq v.asset_id id && eq_ℤ (pos v.revision) (negsuc n)) vs ≡ none
    none_of [] = refl
    none_of (w ∷ vs) = ground (arith, none_of vs)

-- Reading the view is looking into the tables.
pub read-wanted :
    (id : ℕ) (r : ℤ) (t : Tables) (x : AssetRow) (y : Item)
    → IsConsistent t
    → asset_at id t ≡ some x
    → y.versions ≡ versions_of id t.revisions
    → read r y ≡ versioned (revision_at id (wanted (some x) r) t)
unfolding read
read-wanted id (negsuc n) t x y c found same = ap versioned (sym (no_negative id n t))
read-wanted id (pos n) t x y c found same =
    let tall : length (versions_of id t.revisions) ≡ x.latest_revision =
      height id t c ∙ ap latest found in
    elim (Bool-cases (nat_eq n 0)) [
      | inl newest ↦ rw (newest, same, tall) (numbered-revision_at id x.latest_revision t c)
      | inr older ↦ rw (older, same) (numbered-revision_at id n t c)
    ]

-- What a client sees of an answer of `Get`.
abbrev pub shown : Result StoreError Asset → Option (String × String)
shown (err e) = none
shown (ok a) = some (a.title, document_of a)

-- In tables that the store's methods made, over a connection that carries the query and for a
-- revision that an int4 holds: `Get` returns the title of the asset and the document of the version
-- that is read, the newest for 0; and it fails where there is no asset or no such version.
pub get-read :
    (codec : Codec) (env : Env) (id : ℕ) (r : ℤ) (t : Tables)
    → Reach codec empty t
    → env.fault query_rows ≡ none
    → fits_int4 r ≡ true
    → shown (get codec env id r t)
      ≡ (view t id >>? λ x. read r x >>? λ v. some (x.title, v.document))
unfolding get view
get-read codec env id r t reach q fits = elim (Option-cases (asset_at id t)) [
  | inl e ↦ rw (q, fits, e) refl
  | inr (x, e) ↦
      let there =
        read-wanted id r t x (stack (versions_of id t.revisions) x)
          (Reach-IsConsistent codec t reach) e refl in
      rw (q, fits, e, there) (joined_shown x (revision_at id (wanted (some x) r) t))
]
  where
    joined_shown :
        (x : AssetRow) (o : Option RevisionRow)
        → shown (joined (some x) o) ≡ (versioned o >>? λ v. some (x.title, v.document))
    joined_shown x none = refl
    joined_shown x (some v) = refl
