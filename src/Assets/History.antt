-- ===== src/Assets/History.antt =====
-- Sequences of the store's methods, whatever their arguments, and whatever fails.
use flooks.Common.{
  ℕ, String, ◌≡◌, refl, sym, subst, inl, inr, none, some, Option-cases, List, ◌∷◌, Result,
  Result-cases, ok, err, arith,
}
use flooks.Common.Int.{ℤ, pos, eq_ℤ_iff}
use flooks.Assets.Tables.{
  AssetRow, RevisionRow, EventRow, Tables, StoreError, empty, asset_at, revision_at, archive_asset,
}
use flooks.Assets.Store.{
  Asset, Codec, Env, Commit, committed, refused, unanswered, finish, write_asset, create, create_tx,
  update, update_tx, archive, restore, get, autocommit,
}
use flooks.Assets.Store.Writes.{create_tx_writes, update_tx_writes}
use flooks.Assets.Invariant.{
  IsConsistent, create_tx-IsConsistent, update_tx-IsConsistent, archive-IsConsistent,
}

-- One method, run by one client. `seen` is what `Restore` read before it writes, which other
-- clients may have changed since.
pub data Step (codec : Codec) (t : Tables) (u : Tables) : Type 0 where
  by_create :
      (env : Env) (kind slug title summary document : String)
      → u ≡ (create codec env kind slug title summary document t).1
      → Step codec t u
  by_update :
      (env : Env) (id : ℕ) (base : ℤ) (title summary document : String)
      → u ≡ (update codec env id base title summary document t).1
      → Step codec t u
  by_archive : (env : Env) (id : ℕ) → u ≡ (archive codec env id t).1 → Step codec t u
  by_restore :
      (env : Env) (id : ℕ) (source base : ℤ) (seen : Tables)
      → u ≡ (restore codec env id source base seen t).1
      → Step codec t u

pub data Reach (codec : Codec) (t : Tables) : Tables → Type 0 where
  here : Reach codec t t
  next : {u v : Tables} → Reach codec t u → Step codec u v → Reach codec t v

pub autocommit_keeps :
    (P : Tables → Type 0) (c : Commit) (t u : Tables) → P t → P u → P (autocommit c t u).1
autocommit_keeps P committed t u h k = k
autocommit_keeps P (refused e) t u h k = h
autocommit_keeps P (unanswered e) t u h k = k

-- What the old tables and the written ones satisfy, the tables after the transaction satisfy.
pub finish_keeps :
    (P : Tables → Type 0) (c : Commit) (t : Tables) (r : Result StoreError (Asset × Tables))
    → P t
    → ((a : Asset) (u : Tables) → r ≡ ok (a, u) → P u)
    → P (finish c t r).1
finish_keeps P committed t (ok (a, u)) h k = k a u refl
finish_keeps P (refused e) t (ok (a, u)) h k = h
finish_keeps P (unanswered e) t (ok (a, u)) h k = k a u refl
finish_keeps P c t (err e) h k = h

module _ (codec : Codec) (P : Tables → Type 0)
    (creates : (env : Env) (kind slug title summary document : String) (t u : Tables) (a : Asset)
      → P t
      → create_tx codec env kind slug title summary document t ≡ ok (a, u)
      → P u)
    (updates : (env : Env) (id : ℕ) (base : ℤ) (title summary document : String) (t u : Tables)
        (a : Asset)
      → P t
      → update_tx codec env id base title summary document t ≡ ok (a, u)
      → P u)
    (archives : (env : Env) (id : ℕ) (t : Tables) → P t → P (archive_asset env.now id t)) where
  update_keeps :
      (env : Env) (id : ℕ) (base : ℤ) (title summary document : String) (t : Tables)
      → P t
      → P (update codec env id base title summary document t).1
  unfolding update
  update_keeps env id base title summary document t h =
      finish_keeps P env.commit t (update_tx codec env id base title summary document t) h
        (λ a u e. updates env id base title summary document t u a h e)

  restore_keeps :
      (env : Env) (id : ℕ) (source base : ℤ) (seen t : Tables)
      → P t
      → P (restore codec env id source base seen t).1
  unfolding restore
  restore_keeps env id source base seen t h = elim (Result-cases (get codec env id source seen)) [
    | inl (item, e) ↦ rw e (update_keeps env id base _ _ _ t h)
    | inr (x, e) ↦ rw e h
  ]

  archive_keeps : (env : Env) (id : ℕ) (t : Tables) → P t → P (archive codec env id t).1
  unfolding archive
  archive_keeps env id t h = elim (Option-cases (env.fault write_asset)) [
    | inl e ↦ rw (e, archive) (autocommit_keeps P env.commit t _ h (archives env id t h))
    | inr (x, e) ↦ rw (e, archive) h
  ]

  -- What the two transactions and the archiving statement keep, every step keeps.
  pub Step_keeps : {t u : Tables} → Step codec t u → P t → P u
  unfolding create
  Step_keeps {t} (by_create env kind slug title summary document e) h = subst P (sym e) (
      finish_keeps P env.commit t (create_tx codec env kind slug title summary document t) h
        (λ a u k. creates env kind slug title summary document t u a h k))
  Step_keeps {t} (by_update env id base title summary document e) h =
      subst P (sym e) (update_keeps env id base title summary document t h)
  Step_keeps {t} (by_archive env id e) h = subst P (sym e) (archive_keeps env id t h)
  Step_keeps {t} (by_restore env id source base seen e) h =
      subst P (sym e) (restore_keeps env id source base seen t h)

  pub Reach_keeps : {t u : Tables} → Reach codec t u → P t → P u
  Reach_keeps here h = h
  Reach_keeps (next r st) h = Step_keeps st (Reach_keeps r h)

empty-IsConsistent : IsConsistent empty
unfolding asset_at
empty-IsConsistent = record { revisions = λ id. refl; events = λ id. refl }

-- Whatever the clients did and whatever failed, the revisions of each asset are 1 to its latest,
-- each once, an asset that is not there has none, and each revision has exactly one event.
pub Reach-IsConsistent : (codec : Codec) (t : Tables) → Reach codec empty t → IsConsistent t
Reach-IsConsistent codec t r =
    Reach_keeps codec IsConsistent (create_tx-IsConsistent codec) (update_tx-IsConsistent codec)
      (archive-IsConsistent codec) r empty-IsConsistent

-- A row behind a new one whose key was free is found as before.
revision_at-cons :
    (id : ℕ) (r : ℤ) (v row : RevisionRow) (rows : List AssetRow) (events : List EventRow)
    (t : Tables)
    → revision_at row.asset_id (pos row.revision) t ≡ none
    → revision_at id r t ≡ some v
    → revision_at id r (record { assets = rows; revisions = row ∷ t.revisions; outbox = events })
      ≡ some v
unfolding revision_at
revision_at-cons id r v row rows events t free h = ground (arith, eq_ℤ_iff (pos row.revision) r)

-- A revision that is there stays as it is: its document, summary, checksum and author, whatever the
-- clients do after.
pub Reach-revision_at :
    (codec : Codec) (t u : Tables) (id : ℕ) (r : ℤ) (v : RevisionRow)
    → revision_at id r t ≡ some v
    → Reach codec t u
    → revision_at id r u ≡ some v
Reach-revision_at codec t u id r v h reach =
    Reach_keeps codec (λ w. revision_at id r w ≡ some v) creates updates
      (λ env j w k. unfold revision_at archive_asset in k) reach h
  where
    creates :
        (env : Env) (kind slug title summary document : String) (w x : Tables) (a : Asset)
        → revision_at id r w ≡ some v
        → create_tx codec env kind slug title summary document w ≡ ok (a, x)
        → revision_at id r x ≡ some v
    creates env kind slug title summary document w x a k e =
        let (d, hd, fresh, hk, ht, hr, ha, hx) =
          create_tx_writes codec env kind slug title summary document w x a e in
        subst (λ y. revision_at id r y ≡ some v) (sym hx) (revision_at-cons id r v _ _ _ w hr k)

    updates :
        (env : Env) (j : ℕ) (base : ℤ) (title summary document : String) (w x : Tables) (a : Asset)
        → revision_at id r w ≡ some v
        → update_tx codec env j base title summary document w ≡ ok (a, x)
        → revision_at id r x ≡ some v
    updates env j base title summary document w x a k e =
        let (y, found, hb, low, hr, d, hd, ha, hx) =
          update_tx_writes codec env j base title summary document w x a e in
        subst (λ z. revision_at id r z ≡ some v) (sym hx) (revision_at-cons id r v _ _ _ w hr k)
