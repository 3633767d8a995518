-- ===== src/Assets/Versions/Refines.antt =====
-- The methods of the store, as the commands that their clients mean.
use flooks.Common.{
  ℕ, String, ◌≡◌, refl, ap, ◌∙◌, Option, some, Option-cases, inl, inr, Result, Result-cases, ok,
  err,
}
use flooks.Common.Int.{ℤ}
use flooks.Common.Text.{◌+++◌, itoa_ℤ}
use flooks.Assets.Tables.{
  AssetRow, RevisionRow, Tables, StoreError, failed, empty, asset_at, revision_at,
}
use flooks.Assets.Store.{
  Asset, Codec, Env, Commit, committed, refused, unanswered, write_asset, finish, create_tx,
  update_tx, restore_item, get, autocommit, document_of, scanned, wanted,
}
use flooks.Assets.Store as store
use flooks.Assets.Store.Writes.{update_tx_writes}
use flooks.Assets.Invariant.{IsConsistent}
use flooks.Assets.History.{Reach, Reach-IsConsistent}
use flooks.Assets.Restore.{get-wanted}
use flooks.Assets.Versions.{View, Command, create, update, archive, restore, append, apply, ◌>>?◌}
use flooks.Assets.Versions.Commits.{create_tx-add, update_tx-append, archive-shelve}
use flooks.Assets.Versions.Reads.{read-wanted}
use flooks.Assets.Versions.View.{stack, item_of, versions_of, view}

-- Whether a method succeeded.
abbrev pub forget :
    {A : Type 0} → Result StoreError A × Tables → Result StoreError (Unit {0}) × Tables
forget (ok a, t) = (ok tt, t)
forget (err e, t) = (err e, t)

module _ (codec : Codec) (env : Env) where
  -- The store's method for a command. A restore reads in `seen`.
  unfoldable pub run : Command → Tables → Tables → Result StoreError (Unit {0}) × Tables
  run (create kind slug title summary document) seen t =
      forget (store.create codec env kind slug title summary document t)
  run (update id base title summary document) seen t =
      forget (store.update codec env id base title summary document t)
  run (archive id) seen t = store.archive codec env id t
  run (restore id source base) seen t = forget (store.restore codec env id source base seen t)

  -- What a method came to, for what its command means: it is done and answered; it did nothing and
  -- reports an error; or it is done, and the answer to its commit was lost.
  pub data Outcome (meant : Option View) (t : Tables)
      : Result StoreError (Unit {0}) × Tables → Type 0 where
    done : {u : Tables} → meant ≡ some (view u) → Outcome meant t (ok tt, u)
    undone : {e : StoreError} → Outcome meant t (err e, t)
    lost :
        {u : Tables} {x : String}
        → env.commit ≡ unanswered x
        → meant ≡ some (view u)
        → Outcome meant t (err (failed x), u)

  finish-Outcome :
      (meant : Option View) (t : Tables) (c : Commit) (r : Result StoreError (Asset × Tables))
      → env.commit ≡ c
      → ((a : Asset) (u : Tables) → r ≡ ok (a, u) → meant ≡ some (view u))
      → Outcome meant t (forget (finish c t r))
  finish-Outcome meant t c (err e) q h = undone
  finish-Outcome meant t committed (ok (a, u)) q h = done (h a u refl)
  finish-Outcome meant t (refused x) (ok (a, u)) q h = undone
  finish-Outcome meant t (unanswered x) (ok (a, u)) q h = lost q (h a u refl)

  autocommit-Outcome :
      (meant : Option View) (t u : Tables) (c : Commit)
      → env.commit ≡ c
      → meant ≡ some (view u)
      → Outcome meant t (autocommit c t u)
  autocommit-Outcome meant t u committed q h = done h
  autocommit-Outcome meant t u (refused x) q h = undone
  autocommit-Outcome meant t u (unanswered x) q h = lost q h

  update-Outcome :
      (id : ℕ) (base : ℤ) (title summary document : String) (t : Tables)
      → IsConsistent t
      → Outcome
          (codec.jsonb document >>? λ d.
            append id base title (record { document = d; summary = summary }) (view t))
          t
          (forget (store.update codec env id base title summary document t))
  unfolding store.update
  update-Outcome id base title summary document t c = finish-Outcome _ t env.commit _ refl (λ a u h.
      let (x, found, hb, low, hr, d, hd, ha, hu) =
        update_tx_writes codec env id base title summary document t u a h in
      rw hd (update_tx-append codec env id base title summary document d t u a c hd h))

  restore_item-Outcome :
      (id : ℕ) (source base : ℤ) (seen t : Tables) (b : AssetRow) (v : RevisionRow)
      → IsConsistent seen
      → IsConsistent t
      → asset_at id seen ≡ some b
      → revision_at id (wanted (asset_at id seen) source) seen ≡ some v
      → Outcome
          (apply codec.jsonb env.asset_id (restore id source base) (view seen) (view t))
          t
          (forget (restore_item codec env id source base (ok (scanned b (some v.document))) t))
  unfolding restore_item apply
  restore_item-Outcome id source base seen t b v cs c hb hv =
      let there : view seen id ≡ item_of (versions_of id seen.revisions) (some b) =
        unfold view in ap (item_of (versions_of id seen.revisions)) hb in
      let got : revision_at id (wanted (some b) source) seen ≡ some v = rw hb at hv in
      rw
        (
          there,
          read-wanted id source seen b (stack (versions_of id seen.revisions) b) cs hb refl,
          got,
        )
        (update-Outcome id base b.title ("revision " +++ itoa_ℤ source +++ " 복원") v.document t c)

  -- In tables that the store's methods made, and for a restore that read such tables: a method that
  -- succeeds leaves the stacks of versions that its command means, on which the command is possible; a
  -- method that fails leaves the tables as they are, or has done what its command means while the
  -- answer to its commit was lost.
  pub run-Outcome :
      (command : Command) (seen t : Tables)
      → Reach codec empty seen
      → Reach codec empty t
      → Outcome (apply codec.jsonb env.asset_id command (view seen) (view t)) t (run command seen t)
  unfolding run apply store.create store.archive store.restore
  run-Outcome (create kind slug title summary document) seen t rs r =
      finish-Outcome _ t env.commit _ refl (λ a u h.
        create_tx-add codec env kind slug title summary document (view seen) t u a
          (Reach-IsConsistent codec t r) h)
  run-Outcome (update id base title summary document) seen t rs r =
      update-Outcome id base title summary document t (Reach-IsConsistent codec t r)
  run-Outcome (archive id) seen t rs r = elim (Option-cases (env.fault write_asset)) [
    | inl e ↦
        rw (e, store.archive)
          (autocommit-Outcome _ t _ env.commit refl (ap some (archive-shelve codec env id t)))
    | inr (x, e) ↦ rw (e, store.archive) undone
  ]
  run-Outcome (restore id source base) seen t rs r =
      elim (Result-cases (get codec env id source seen)) [
        | inr (e, q) ↦ rw q (unfold restore_item in undone)
        | inl (item, q) ↦
            let (b, v, hb, hv, hi) = get-wanted codec env id source seen item q in
            rw (q ∙ ap ok hi) (
              restore_item-Outcome id source base seen t b v (Reach-IsConsistent codec seen rs)
                (Reach-IsConsistent codec t r) hb hv)
      ]
