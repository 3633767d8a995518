-- ===== src/Assets/Versions/Progress.antt =====
-- When a writer gets through.
use flooks.Common.{
  ℕ, ◌+◌, ◌<◌, String, ◌≡◌, ◌≢◌, refl, sym, ap, ◌∙◌, Option, none, some, Option-cases, inl, inr,
  List, [], ◌∷◌, Result-cases, ok, err, find_first, length, nat_eq, arith,
}
use flooks.Common.Int.{pos}
use flooks.Assets.Tables.{
  AssetRow, RevisionRow, EventRow, Tables, StoreError, empty, asset_at, revision_at, max_int4,
  update_asset, insert_revision_row, insert_event_row,
}
use flooks.Assets.Store.{
  Asset, Codec, Env, Statement, committed, begin_tx, write_asset, write_revision, write_event,
  update, update_tx,
}
use flooks.Assets.Conflict.{asset_at-retitled}
use flooks.Assets.Invariant.{IsConsistent, latest}
use flooks.Assets.History.{Reach, Reach-IsConsistent}
use flooks.Assets.Versions.{Version, View, append, numbered}
use flooks.Assets.Versions.View.{versions_of, versioned, view, height, numbered-revision_at}
use flooks.Assets.Versions.Commits.{update_tx-append}

-- Every call of the database goes through, and the id of the event is not in use.
pub record IsClear (env : Env) (t : Tables) : Type 0 where
  pub carried : (s : Statement) → env.fault s ≡ none
  pub commits : env.commit ≡ committed
  pub fresh : find_first (λ (x : EventRow). nat_eq x.id env.event_id) t.outbox ≡ none

numbered-above : (r : ℕ) (vs : List Version) → length vs < r → numbered r vs ≡ none
unfolding numbered
numbered-above r [] h = refl
numbered-above r (v ∷ vs) h = ground (arith, numbered-above r vs)

versioned-none : (o : Option RevisionRow) → versioned o ≡ none → o ≡ none
versioned-none none h = refl
versioned-none (some v) h = absurd (ground arith)

-- The number past the latest revision is free.
next_free :
    (id : ℕ) (t : Tables) (x : AssetRow)
    → IsConsistent t
    → asset_at id t ≡ some x
    → revision_at id (pos (x.latest_revision + 1)) t ≡ none
next_free id t x c found =
    let tall : length (versions_of id t.revisions) ≡ x.latest_revision =
      height id t c ∙ ap latest found in
    versioned-none _ (
      sym (numbered-revision_at id (x.latest_revision + 1) t c)
      ∙ numbered-above _ (versions_of id t.revisions) (omega (arith, tall)))

append_base :
    (id n : ℕ) (title : String) (v : Version) (t : Tables) (s : View)
    → IsConsistent t
    → append id (pos n) title v (view t) ≡ some s
    → (x : AssetRow) × (asset_at id t ≡ some x) × (x.latest_revision ≡ n)
unfolding append view
append_base id n title v t s c h = elim (Option-cases (asset_at id t)) [
  | inl e ↦ absurd (ground arith)
  | inr (x, e) ↦
      let tall : length (versions_of id t.revisions) ≡ x.latest_revision =
        height id t c ∙ ap latest e in
      (x, e, ground (arith, tall))
]

update_tx-ne-err :
    (codec : Codec) (env : Env) (id : ℕ) (title summary document d : String) (t : Tables)
    (x : AssetRow) (e : StoreError)
    → IsClear env t
    → codec.jsonb document ≡ some d
    → asset_at id t ≡ some x
    → x.latest_revision < max_int4
    → revision_at id (pos (x.latest_revision + 1)) t ≡ none
    → update_tx codec env id (pos x.latest_revision) title summary document t ≢ err e
unfolding update_tx revision_at update_asset insert_revision_row insert_event_row
update_tx-ne-err codec env id title summary document d t x e clear hd found low free = λ h. ground (
  arith,
  clear.carried begin_tx,
  clear.carried write_asset,
  clear.carried write_revision,
  clear.carried write_event,
  clear.fresh,
  asset_at-retitled id env.now title x t t.revisions t.outbox found,
)

-- In tables that the store's methods made, where every call of the database goes through: a writer who
-- names the height of an asset's stack, below 2^31 - 1, puts a version on top, if its document is one
-- that the database accepts.
pub update-proceeds :
    (codec : Codec) (env : Env) (id n : ℕ) (title summary document d : String) (t : Tables)
    (s : View)
    → Reach codec empty t
    → IsClear env t
    → codec.jsonb document ≡ some d
    → append id (pos n) title (record { document = d; summary = summary }) (view t) ≡ some s
    → n < max_int4
    → (a : Asset) × (u : Tables) × (update codec env id (pos n) title summary document t
        ≡ (ok a, u))
      × (view u ≡ s)
unfolding update
update-proceeds codec env id n title summary document d t s reach clear hd meant low =
    let c = Reach-IsConsistent codec t reach in
    let (x, found, at) = append_base id n title _ t s c meant in
    elim (Result-cases (update_tx codec env id (pos n) title summary document t)) [
      | inl ((a, u), e) ↦ (
        a,
        u,
        rw (e, clear.commits) refl,
        some_inj (
            sym (update_tx-append codec env id (pos n) title summary document d t u a c hd e)
            ∙ meant),
      )
      | inr (e, h) ↦ absurd (
          update_tx-ne-err codec env id title summary document d t x e clear hd found
            (omega (arith, at)) (next_free id t x c found) (rw at h))
    ]
  where
    some_inj : {v w : View} → some v ≡ some w → v ≡ w
    some_inj q = cc
