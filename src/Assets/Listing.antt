-- ===== src/Assets/Listing.antt =====
-- internal/assets/store.go: `List` and `Revisions`. Of rows with equal times SQL gives no order;
-- here the newer row of the table comes first.
use flooks.Common.{
  ℕ, zero, suc, ◌≤◌, String, ◌≡◌, refl, ap, ◌∙◌, none, List, [], ◌∷◌, map, Result, ok, keep, leb,
  nat_eq, ◌==◌, arith, if◌then◌else◌,
}
use flooks.Assets.Tables.{AssetRow, RevisionRow, Tables, StoreError, empty}
use flooks.Assets.Store.{Asset, Revision, Codec, Env, scanned, attempt, query_rows}
use flooks.Assets.Invariant.{countdown, latest, revisions_of}
use flooks.Assets.History.{Reach, Reach-IsConsistent}
use flooks.Assets.Tables.{asset_at}

module _ {A : Type 0} (key : A → ℕ) where
  -- `ORDER BY key DESC`
  unfoldable pub insert_desc : A → List A → List A
  insert_desc x [] = x ∷ []
  insert_desc x (y ∷ ys) = if leb (key y) (key x) then x ∷ y ∷ ys else y ∷ insert_desc x ys

  unfoldable pub sort_desc : List A → List A
  unfolding insert_desc
  sort_desc [] = []
  sort_desc (x ∷ xs) = insert_desc x (sort_desc xs)

  -- Each key is at most the one before it.
  abbrev pub IsDescending : List A → Type 0
  IsDescending [] = Unit
  IsDescending (x ∷ []) = Unit
  IsDescending (x ∷ y ∷ ys) = (key y ≤ key x) × IsDescending (y ∷ ys)

  insert_desc-IsDescending :
      (x : A) (ys : List A) → IsDescending ys → IsDescending (insert_desc x ys)
  unfolding insert_desc
  insert_desc-IsDescending x [] h = tt
  insert_desc-IsDescending x (y ∷ []) h = ground arith
  insert_desc-IsDescending x (y ∷ z ∷ ys) (p, h) =
      ground (arith, insert_desc-IsDescending x (z ∷ ys) h)

  pub sort_desc-IsDescending : (xs : List A) → IsDescending (sort_desc xs)
  unfolding sort_desc
  sort_desc-IsDescending [] = tt
  sort_desc-IsDescending (x ∷ xs) =
      insert_desc-IsDescending x (sort_desc xs) (sort_desc-IsDescending xs)

  pub sort_desc_of_IsDescending : (xs : List A) → IsDescending xs → sort_desc xs ≡ xs
  unfolding sort_desc
  sort_desc_of_IsDescending [] h = refl
  sort_desc_of_IsDescending (x ∷ []) h = refl
  sort_desc_of_IsDescending (x ∷ y ∷ ys) (p, h) =
      rw (sort_desc_of_IsDescending (y ∷ ys) h) (ground arith)

module _ (env : Env) where
  -- `Store.List`
  unfoldable pub list : String → Tables → Result StoreError (List Asset)
  list kind t = attempt (env.fault query_rows) (
      ok (
        map (λ a. scanned a none)
          (sort_desc (λ (a : AssetRow). a.updated_at) (keep (λ a. a.kind == kind) t.assets))))

  abbrev pub summary_of : RevisionRow → Revision
  summary_of v = record {
    revision = v.revision;
    summary = v.summary;
    actor = v.actor;
    created = v.created_at;
  }

  -- `Store.Revisions`
  unfoldable pub revisions : ℕ → Tables → Result StoreError (List Revision)
  revisions id t = attempt (env.fault query_rows) (
      ok (
        map summary_of (
          sort_desc (λ (v : RevisionRow). v.revision)
            (keep (λ v. nat_eq v.asset_id id) t.revisions))))

revisions_of-keep :
    (id : ℕ) (vs : List RevisionRow)
    → map (λ (v : RevisionRow). v.revision) (keep (λ v. nat_eq v.asset_id id) vs)
      ≡ revisions_of id vs
revisions_of-keep id [] = refl
revisions_of-keep id (v ∷ vs) = ground (arith, revisions_of-keep id vs)

countdown-IsDescending :
    (n : ℕ) (vs : List RevisionRow)
    → map (λ (v : RevisionRow). v.revision) vs ≡ countdown n
    → IsDescending (λ (v : RevisionRow). v.revision) vs
countdown-IsDescending n [] h = tt
countdown-IsDescending n (v ∷ []) h = tt
countdown-IsDescending zero (v ∷ w ∷ vs) h = absurd (cc)
countdown-IsDescending (suc zero) (v ∷ w ∷ vs) h = absurd (cc)
countdown-IsDescending (suc (suc n)) (v ∷ w ∷ vs) h =
    (ground arith, countdown-IsDescending (suc n) (w ∷ vs) (ground arith))

map-summary_of :
    (env : Env) (vs : List RevisionRow)
    → map (λ (x : Revision). x.revision) (map (summary_of env) vs)
      ≡ map (λ (v : RevisionRow). v.revision) vs
map-summary_of env [] = refl
map-summary_of env (v ∷ vs) = ap (λ l. v.revision ∷ l) (map-summary_of env vs)

-- In tables that the store's methods made, `Revisions` lists all the revisions of an asset, from its
-- latest down to 1, and none of an asset that is not there.
pub revisions-countdown :
    (codec : Codec) (env : Env) (t : Tables) (id : ℕ)
    → Reach codec empty t
    → env.fault query_rows ≡ none
    → (vs : List Revision) × (revisions env id t ≡ ok vs)
      × (map (λ (x : Revision). x.revision) vs ≡ countdown (latest (asset_at id t)))
unfolding revisions
revisions-countdown codec env t id r q =
    let c = Reach-IsConsistent codec t r in
    let rows = keep (λ (v : RevisionRow). nat_eq v.asset_id id) t.revisions in
    let numbers = revisions_of-keep id t.revisions ∙ c.revisions id in
    let sorted =
      sort_desc_of_IsDescending (λ (v : RevisionRow). v.revision) rows
        (countdown-IsDescending (latest (asset_at id t)) rows numbers) in
    (map (summary_of env) rows, rw (q, sorted), map-summary_of env rows ∙ numbers)
