-- ===== src/Assets/Restore.antt =====
-- What `Get` reads after `Update`, and that `Restore` copies a revision.
use flooks.Common.{
  ℕ, ◌+◌, String, ◌≡◌, ◌⊎◌, inl, inr, refl, sym, subst, ap, ◌∙◌, none, some, List, ◌∷◌, Result, ok,
  err, arith, nat_eq_iff,
}
use flooks.Common.Int.{ℤ, pos}
use flooks.Assets.Tables.{
  AssetRow, RevisionRow, EventRow, Tables, StoreError, empty, asset_at, revision_at, retitled,
  archive_asset,
}
use flooks.Assets.Store.{
  Asset, Codec, Env, scanned, wanted, query_rows, create_tx, update, update_tx, restore,
  restore_item, get, document_of,
}
use flooks.Common.Text.{◌+++◌, itoa_ℤ}
use flooks.Assets.Store.Writes.{create_tx_writes, update_tx_writes, revision_row}
use flooks.Assets.Conflict.{finish_ok, asset_at-retitled}
use flooks.Assets.History.{Reach, Reach_keeps}

revision_at_new :
    (id r : ℕ) (row : RevisionRow) (rows : List AssetRow) (rs : List RevisionRow)
    (es : List EventRow)
    → row.asset_id ≡ id
    → row.revision ≡ r
    → revision_at id (pos r) (record { assets = rows; revisions = row ∷ rs; outbox = es })
      ≡ some row
unfolding revision_at
revision_at_new id r row rows rs es h k =
    ground (arith, nat_eq_iff row.asset_id id, nat_eq_iff row.revision r)

revision_at-cons_cases :
    (id : ℕ) (r : ℤ) (v row : RevisionRow) (rows : List AssetRow) (es : List EventRow) (t : Tables)
    → revision_at id r (record { assets = rows; revisions = row ∷ t.revisions; outbox = es })
      ≡ some v
    → (v ≡ row) ⊎ (revision_at id r t ≡ some v)
unfolding revision_at
revision_at-cons_cases id r v row rows es t h = ground arith

pub same_some : (a b : String) → some a ≡ some b → a ≡ b
same_some a b h = cc

module _ (codec : Codec) where
  -- What a successful `Update` left.
  record Updated (env : Env) (id : ℕ) (base : ℤ) (title summary document : String) (t u : Tables)
      (a : Asset) : Type 0 where
    old : AssetRow
    was : asset_at id t ≡ some old
    at_base : base ≡ pos old.latest_revision
    normal : String
    stored : codec.jsonb document ≡ some normal
    asset : asset_at id u ≡ some (retitled env.now title old)
    revision :
        revision_at id (pos (old.latest_revision + 1)) u
        ≡ some (revision_row codec env id (old.latest_revision + 1) summary document normal)
    result : a ≡ scanned (retitled env.now title old) (some document)

  update_lem :
      (env : Env) (id : ℕ) (base : ℤ) (title summary document : String) (t u : Tables) (a : Asset)
      → update codec env id base title summary document t ≡ (ok a, u)
      → Updated env id base title summary document t u a
  update_lem env id base title summary document t u a h =
      let written =
        finish_ok env.commit t (update_tx codec env id base title summary document t) a u
          (unfold update in h) in
      let (x, found, hb, low, hr, d, hd, ha, hu) =
        update_tx_writes codec env id base title summary document t u a written in
      record {
        old = x;
        was = found;
        at_base = hb;
        normal = d;
        stored = hd;
        asset = ap (asset_at id) hu ∙ asset_at-retitled id env.now title x t _ _ found;
        revision =
            ap (revision_at id (pos (x.latest_revision + 1))) hu
            ∙ revision_at_new id (x.latest_revision + 1) _ _ _ _ refl refl;
        result = ha;
      }

  get-latest :
      (env : Env) (id : ℕ) (t : Tables) (b : AssetRow) (v : RevisionRow)
      → asset_at id t ≡ some b
      → revision_at id (pos b.latest_revision) t ≡ some v
      → env.fault query_rows ≡ none
      → get codec env id (pos 0) t ≡ ok (scanned b (some v.document))
  unfolding get
  get-latest env id t b v ha hv hq = rw (hq, ha, hv)

  pub get-wanted :
      (env : Env) (id : ℕ) (r : ℤ) (t : Tables) (item : Asset)
      → get codec env id r t ≡ ok item
      → (b : AssetRow) × (v : RevisionRow) × (asset_at id t ≡ some b)
        × (revision_at id (wanted (asset_at id t) r) t ≡ some v)
        × (item ≡ scanned b (some v.document))
  unfolding get
  get-wanted env id r t item h = ground arith

  -- After a successful `Update` the asset has the given title and one more revision, and reading
  -- its latest revision, over a connection that carries the query, gives what `Update` returned, with
  -- the document in the database's normal form.
  pub get-update :
      (env env' : Env) (id : ℕ) (base : ℤ) (title summary document : String) (t u : Tables)
      (a : Asset)
      → update codec env id base title summary document t ≡ (ok a, u)
      → env'.fault query_rows ≡ none
      → (d : String) × (codec.jsonb document ≡ some d)
        × (get codec env' id (pos 0) u ≡ ok (record a { document = some d }))
        × (a.title ≡ title)
        × (n : ℕ) × (base ≡ pos n)
        × (a.latest_revision ≡ n + 1)
  get-update env env' id base title summary document t u a h q =
      let w = update_lem env id base title summary document t u a h in
      (
        w.normal,
        w.stored,
        get-latest env' id u _ _ w.asset w.revision q
            ∙ ap (λ (x : Asset). ok (record x { document = some w.normal })) (sym w.result),
        ap (λ (x : Asset). x.title) w.result,
        w.old.latest_revision,
        w.at_base,
        ap (λ (x : Asset). x.latest_revision) w.result,
      )

  -- Every stored document is in the database's normal form, if normalising twice is normalising once.
  abbrev IsNormal : Tables → Type 0
  IsNormal t =
      (id : ℕ) (r : ℤ) (v : RevisionRow)
      → revision_at id r t ≡ some v
      → codec.jsonb v.document ≡ some v.document

  Reach-IsNormal :
      ((s d : String) → codec.jsonb s ≡ some d → codec.jsonb d ≡ some d)
      → {t : Tables} → Reach codec empty t
      → IsNormal t
  Reach-IsNormal idem r =
      Reach_keeps codec IsNormal creates updates
        (λ env j w k id r v. unfold revision_at archive_asset in k id r v) r
        (λ id r v h. unfold revision_at in cc)
    where
      behind :
          (row : RevisionRow) (rows : List AssetRow) (es : List EventRow) (w : Tables)
          → codec.jsonb row.document ≡ some row.document
          → IsNormal w
          → IsNormal (record { assets = rows; revisions = row ∷ w.revisions; outbox = es })
      behind row rows es w n k id r v h = elim (revision_at-cons_cases id r v row rows es w h) [
        | inl e ↦ rw e n
        | inr old ↦ k id r v old
      ]

      creates :
          (env : Env) (kind slug title summary document : String) (w x : Tables) (a : Asset)
          → IsNormal w
          → create_tx codec env kind slug title summary document w ≡ ok (a, x)
          → IsNormal x
      creates env kind slug title summary document w x a k e =
          let (d, hd, fresh, hk, ht, hr, ha, hx) =
            create_tx_writes codec env kind slug title summary document w x a e in
          subst IsNormal (sym hx) (behind _ _ _ w (idem document d hd) k)

      updates :
          (env : Env) (j : ℕ) (base : ℤ) (title summary document : String) (w x : Tables)
          (a : Asset)
          → IsNormal w
          → update_tx codec env j base title summary document w ≡ ok (a, x)
          → IsNormal x
      updates env j base title summary document w x a k e =
          let (y, found, hb, low, hr, d, hd, ha, hx) =
            update_tx_writes codec env j base title summary document w x a e in
          subst IsNormal (sym hx) (behind _ _ _ w (idem document d hd) k)

  pub restore_item_ok :
      (env : Env) (id : ℕ) (source base : ℤ) (r : Result StoreError Asset) (t u : Tables)
      (a : Asset)
      → restore_item codec env id source base r t ≡ (ok a, u)
      → (item : Asset) × (r ≡ ok item)
        × (update codec env id base item.title
              ("revision " +++ itoa_ℤ source +++ " 복원")
              (document_of item)
              t
            ≡ (ok a, u))
  unfolding restore_item
  restore_item_ok env id source base (ok item) t u a h = (item, refl, h)
  restore_item_ok env id source base (err e) t u a h = cc

  -- In tables that the store's methods made, and if normalising a document twice is normalising it
  -- once: a successful `Restore` reads a revision of the asset, the latest if it is asked for 0, and
  -- adds a revision with the same document, numbered one past the base.
  pub restore_copies :
      (env : Env) (id : ℕ) (source base : ℤ) (seen t u : Tables) (a : Asset)
      → ((s d : String) → codec.jsonb s ≡ some d → codec.jsonb d ≡ some d)
      → Reach codec empty seen
      → restore codec env id source base seen t ≡ (ok a, u)
      → (v : RevisionRow) × (revision_at id (wanted (asset_at id seen) source) seen ≡ some v)
        × (w : RevisionRow) × (n : ℕ) × (base ≡ pos n)
        × (revision_at id (pos (n + 1)) u ≡ some w)
        × (w.document ≡ v.document)
  restore_copies env id source base seen t u a idem reach h =
      let (item, got, done) =
        restore_item_ok env id source base (get codec env id source seen) t u a
          (unfold restore in h) in
      let (b, v, hb, hv, hi) = get-wanted env id source seen item got in
      let w = update_lem env id base item.title _ (document_of item) t u a done in
      let same : document_of item ≡ v.document = ap document_of hi in
      let normal = Reach-IsNormal idem reach id _ v hv in
      (
        v,
        hv,
        _,
        w.old.latest_revision,
        w.at_base,
        w.revision,
        same_some w.normal v.document (sym (rw same at w.stored) ∙ normal),
      )
