-- ===== src/Assets/Conflict.antt =====
-- Optimistic concurrency of `Update`, and the tables behind a failure.
use flooks.Common.{
  ℕ, ◌<◌, String, ◌≡◌, ◌≢◌, refl, sym, ◌↔◌, ◌⊎◌, inl, inr, true, Option, none, some, List,
  Option-cases, Result, ok, err, arith,
}
use flooks.Common.Int.{ℤ, pos, eq_ℤ_iff}
use flooks.Assets.Tables.{
  AssetRow, RevisionRow, EventRow, Tables, StoreError, conflict, asset_at, fits_int4, update_asset,
  retitled, max_int4, update_row, insert_revision_row, insert_event_row,
}
use flooks.Assets.Store.{
  Asset, Codec, Env, Commit, unanswered, begin_tx, write_asset, finish, create, create_tx, update,
  update_tx, restore, restore_item, get,
}
use flooks.Assets.Store.Writes.{update_tx_writes}
use flooks.Assets.Invariant.{asset_at-update_row}

-- The connection carries the first two statements of `Update`.
pub record Reaches (env : Env) : Type 0 where
  pub begins : env.fault begin_tx ≡ none
  pub writes : env.fault write_asset ≡ none

-- The asset has the revision that the client saw.
abbrev pub HasBase : ℕ → ℤ → Tables → Type 0
HasBase id base t = (a : AssetRow) × (asset_at id t ≡ some a) × (base ≡ pos a.latest_revision)

pub finish_ok :
    (c : Commit) (t : Tables) (r : Result StoreError (Asset × Tables)) (a : Asset) (u : Tables)
    → finish c t r ≡ (ok a, u)
    → r ≡ ok (a, u)
finish_ok c t r a u h = ground arith

-- The tables did not change, or the answer of the commit was lost.
abbrev pub IsUndone : Env → Tables → Tables → Type 0
IsUndone env t u = (u ≡ t) ⊎ ((x : String) × (env.commit ≡ unanswered x))

finish_err :
    (env : Env) (t : Tables) (r : Result StoreError (Asset × Tables)) (e : StoreError) (u : Tables)
    → finish env.commit t r ≡ (err e, u)
    → IsUndone env t u
finish_err env t r e u h = ground arith

pub asset_at-retitled :
    (id now : ℕ) (title : String) (x : AssetRow) (t : Tables) (rs : List RevisionRow)
    (es : List EventRow)
    → asset_at id t ≡ some x
    → asset_at id (record {
      assets = update_row id (retitled now title) t.assets;
      revisions = rs;
      outbox = es;
    })
      ≡ some (retitled now title x)
unfolding asset_at
asset_at-retitled id now title x t rs es h =
    ground (arith, asset_at-update_row id id (retitled now title) t.assets (λ a. refl))

-- An asset is not both at a revision and past it.
moved_on :
    (o : Option AssetRow) (now : ℕ) (title : String) (x y : AssetRow) (base : ℤ)
    → o ≡ some (retitled now title x)
    → base ≡ pos x.latest_revision
    → o ≡ some y
    → base ≡ pos y.latest_revision
    → ⊥
moved_on o now title x y base h b k c = ground arith

fits_lem : (n : ℕ) → n < max_int4 → fits_int4 (pos n) ≡ true
fits_lem n h = ground arith

module _ (codec : Codec) where
  pub conflict_lem :
      (env : Env) (id : ℕ) (base : ℤ) (title summary document : String) (t : Tables) (a : AssetRow)
      → (update codec env id base title summary document t).0 ≡ err conflict
      → asset_at id t ≡ some a
      → base ≢ pos a.latest_revision
  unfolding update update_tx update_asset insert_revision_row insert_event_row
  conflict_lem env id base title summary document t a h e =
      λ b. ground (arith, eq_ℤ_iff (pos a.latest_revision) base)

  -- `Update` answers "revision conflict" exactly when there is no asset of that id at that revision,
  -- given a connection that carries its first statements and a revision that an int4 holds; and it
  -- leaves the tables as they were.
  pub update-conflict_iff :
      (env : Env) (id : ℕ) (base : ℤ) (title summary document : String) (t : Tables)
      → Reaches env
      → fits_int4 base ≡ true
      → (update codec env id base title summary document t ≡ (err conflict, t))
        ↔ (HasBase id base t → ⊥)
  unfolding update update_tx update_asset insert_revision_row insert_event_row
  update-conflict_iff env id base title summary document t r f = (
    λ h (a, e, b). ground (arith, eq_ℤ_iff (pos a.latest_revision) base),
    λ free. elim (Option-cases (asset_at id t)) [
      | inl e ↦ ground arith
      | inr (a, e) ↦
          let other : ¬ (pos a.latest_revision ≡ base) = λ q. free (a, e, sym q) in
          ground (arith, eq_ℤ_iff (pos a.latest_revision) base)
    ],
  )

  -- Of two clients that saw the same revision, the one that comes second is answered "revision
  -- conflict" and changes nothing, whatever it writes.
  pub update-update :
      (env env' : Env) (id : ℕ) (base : ℤ)
      (title title' summary summary' document document' : String) (t u : Tables) (a : Asset)
      → update codec env id base title summary document t ≡ (ok a, u)
      → Reaches env'
      → update codec env' id base title' summary' document' u ≡ (err conflict, u)
  update-update env env' id base title title' summary summary' document document' t u a h r =
      let written =
        finish_ok env.commit t (update_tx codec env id base title summary document t) a u
          (unfold update in h) in
      let (x, found, hb, low, hr, d, hd, ha, hu) =
        update_tx_writes codec env id base title summary document t u a written in
      let there : asset_at id u ≡ some (retitled env.now title x) =
        rw hu (asset_at-retitled id env.now title x t _ _ found) in
      (update-conflict_iff env' id base title' summary' document' u r
          (rw hb (fits_lem x.latest_revision low))).1
        (λ (y, e, b). moved_on (asset_at id u) env.now title x y base there hb e b)

  -- A call of `Create`, `Update` or `Restore` that fails leaves the tables as they were, unless it is
  -- the answer to its commit that was lost.
  pub failed-unchanged :
      (env : Env) (t u : Tables) (e : StoreError)
      → ((kind slug title summary document : String)
          → create codec env kind slug title summary document t ≡ (err e, u)
          → IsUndone env t u)
        × ((id : ℕ) (base : ℤ) (title summary document : String)
            → update codec env id base title summary document t ≡ (err e, u)
            → IsUndone env t u)
        × ((id : ℕ) (source base : ℤ) (seen : Tables)
            → restore codec env id source base seen t ≡ (err e, u)
            → IsUndone env t u)
  unfolding create update restore
  failed-unchanged env t u e = (
    λ kind slug title summary document h.
        finish_err env t (create_tx codec env kind slug title summary document t) e u h,
    λ id base title summary document h.
        finish_err env t (update_tx codec env id base title summary document t) e u h,
    λ id source base seen h. restored id source base (get codec env id source seen) h,
  )
    where
      restored :
          (id : ℕ) (source base : ℤ) (r : Result StoreError Asset)
          → restore_item codec env id source base r t ≡ (err e, u)
          → IsUndone env t u
      restored id source base (err x) h = inl (cc)
      restored id source base (ok item) h =
          finish_err env t (update_tx codec env id base item.title _ _ t) e u h
