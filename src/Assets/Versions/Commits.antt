-- ===== src/Assets/Versions/Commits.antt =====
-- What the transactions of the store do to the view.
use mathlib.Core.Path.{fun_ext}
use flooks.Common.{
  ℕ, ◌+◌, String, ◌≡◌, refl, sym, ap, ◌∙◌, none, some, List, [], ◌∷◌, ok, length, false, nat_eq_iff,
  arith,
}
use flooks.Common.Int.{ℤ}
use flooks.Assets.Tables.{
  is_some, EventRow, AssetRow, Tables, asset_at, archive_asset, archived_row, retitled, update_row,
}
use flooks.Assets.Store.{Asset, Codec, Env, create_tx, update_tx}
use flooks.Assets.Store.Writes.{new_asset, revision_row, create_tx_writes, update_tx_writes}
use flooks.Assets.Invariant.{IsConsistent, latest, asset_at-update_row}
use flooks.Assets.Versions.{Version, View, create, put, add, append, shelve, apply}
use flooks.Assets.Versions.View.{item_of, versions_of, view, height}

no_versions : (vs : List Version) → length vs ≡ 0 → vs ≡ []
no_versions [] h = refl
no_versions (v ∷ vs) h = absurd (ground arith)

module _ (codec : Codec) (env : Env) where
  put-created :
      (kind slug title summary document d : String) (t : Tables) (es : List EventRow)
      → IsConsistent t
      → asset_at env.asset_id t ≡ none
      → put env.asset_id
          (record {
            kind = kind;
            slug = slug;
            title = title;
            archived = false;
            versions = record { document = d; summary = summary } ∷ [];
          })
          (view t)
        ≡ view (record {
          assets = new_asset codec env kind slug title ∷ t.assets;
          revisions = revision_row codec env env.asset_id 1 summary document d ∷ t.revisions;
          outbox = es;
        })
  unfolding put view asset_at
  put-created kind slug title summary document d t es c fresh =
      let none_yet : versions_of env.asset_id t.revisions ≡ [] =
        no_versions _ (height env.asset_id t c ∙ ap latest fresh) in
      fun_ext (λ j. ground (arith, none_yet, nat_eq_iff env.asset_id j))

  add_new :
      (id : ℕ) (kind slug title : String) (v : Version) (s : View)
      → s id ≡ none
      → add id kind slug title v s
        ≡ some (
            put id
              (record {
                kind = kind;
                slug = slug;
                title = title;
                archived = false;
                versions = v ∷ [];
              })
              s)
  unfolding add
  add_new id kind slug title v s h = rw h refl

  pub create_tx-add :
      (kind slug title summary document : String) (seen : View) (t u : Tables) (a : Asset)
      → IsConsistent t
      → create_tx codec env kind slug title summary document t ≡ ok (a, u)
      → apply codec.jsonb env.asset_id (create kind slug title summary document) seen (view t)
        ≡ some (view u)
  unfolding apply
  create_tx-add kind slug title summary document seen t u a c h =
      let (d, hd, fresh, hk, ht, hr, ha, hu) =
        create_tx_writes codec env kind slug title summary document t u a h in
      rw hd (
        add_new env.asset_id kind slug title _ (view t)
          (unfold view in ap (item_of (versions_of env.asset_id t.revisions)) fresh)
        ∙ ap some (put-created kind slug title summary document d t _ c fresh)
        ∙ ap (λ w. some (view w)) (sym hu))

  put-updated :
      (id : ℕ) (title summary document d : String) (t : Tables) (x : AssetRow) (es : List EventRow)
      → asset_at id t ≡ some x
      → put id
          (record {
            kind = x.kind;
            slug = x.slug;
            title = title;
            archived = is_some x.archived_at;
            versions = record { document = d; summary = summary } ∷ versions_of id t.revisions;
          })
          (view t)
        ≡ view (record {
          assets = update_row id (retitled env.now title) t.assets;
          revisions =
              revision_row codec env id (x.latest_revision + 1) summary document d ∷ t.revisions;
          outbox = es;
        })
  unfolding put view asset_at
  put-updated id title summary document d t x es found = fun_ext (λ j. ground (
    arith,
    found,
    nat_eq_iff id j,
    asset_at-update_row id j (retitled env.now title) t.assets (λ a. refl),
  ))

  pub update_tx-append :
      (id : ℕ) (base : ℤ) (title summary document d : String) (t u : Tables) (a : Asset)
      → IsConsistent t
      → codec.jsonb document ≡ some d
      → update_tx codec env id base title summary document t ≡ ok (a, u)
      → append id base title (record { document = d; summary = summary }) (view t) ≡ some (view u)
  unfolding append view
  update_tx-append id base title summary document d t u a c hd h =
      let (x, found, hb, low, hr, d', hd', ha, hu) =
        update_tx_writes codec env id base title summary document t u a h in
      let tall : length (versions_of id t.revisions) ≡ x.latest_revision =
        height id t c ∙ ap latest found in
      let same : d' ≡ d = ground arith in
      rw (hb, found, tall)
        (ground (arith, put-updated id title summary document d t x u.outbox found))

  pub archive-shelve :
      (id : ℕ) (t : Tables) → shelve id (view t) ≡ view (archive_asset env.now id t)
  unfolding shelve view asset_at archive_asset
  archive-shelve id t =
      fun_ext
        (λ j. ground (arith, asset_at-update_row id j (archived_row env.now) t.assets (λ a. refl)))
