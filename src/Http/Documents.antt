-- ===== src/Http/Documents.antt =====
-- The documents that requests leave in the tables.
use flooks.Common.{
  ℕ, String, ◌≡◌, inl, inr, refl, sym, subst, ◌∙◌, Option, Option-cases, some, [], All, All-Any,
  find_first_sound, Result-cases,
}
use flooks.Common.Int.{ℤ}
use flooks.Assets.Tables.{RevisionRow, EventRow, Tables, empty, revision_at, archive_asset}
use flooks.Assets.Store.{
  Asset, Codec, Env, create, create_tx, update, update_tx, archive, restore, restore_item, get,
  document_of, write_asset,
}
use flooks.Assets.Store.Writes.{create_tx_writes, update_tx_writes}
use flooks.Assets.Invariant.{IsConsistent}
use flooks.Assets.History.{
  by_create, by_update, by_archive, by_restore, finish_keeps, autocommit_keeps, Reach-IsConsistent,
  here,
}
use flooks.Assets.Restore.{get-wanted, same_some}
use flooks.Events.{mark_row}
use flooks.Events.Delivery.{mark-IsConsistent}
use flooks.Events.Interleaved.{client-IsConsistent}
use flooks.Http.Wire.{Request}
use flooks.Http.Keeps.{IsDocument, serve_keeps}
use flooks.Http.Routes.{Endpoint, Server, serve}

-- The database's normal form of a text that was read as a document of the one version and of one of
-- the two kinds.
abbrev pub IsAccepted : Codec → (String → Option (String × String)) → String → Type 0
IsAccepted codec header document =
    (text : String) × IsDocument header text × (codec.jsonb text ≡ some document)

abbrev pub AreAccepted : Codec → (String → Option (String × String)) → Tables → Type 0
AreAccepted codec header t =
    All (λ (v : RevisionRow). IsAccepted codec header v.document) t.revisions

module _ (codec : Codec) (header : String → Option (String × String))
    (idem : (s d : String) → codec.jsonb s ≡ some d → codec.jsonb d ≡ some d) where
  -- Whatever the normal form of the document is, it is that of an accepted text.
  abbrev IsSource : String → Type 0
  IsSource document = (d : String) → codec.jsonb document ≡ some d → IsAccepted codec header d

  IsDocument-IsSource : (document : String) → IsDocument header document → IsSource document
  IsDocument-IsSource document k = λ d h. (document, k, h)

  IsAccepted-IsSource : (document : String) → IsAccepted codec header document → IsSource document
  IsAccepted-IsSource document (text, k, h) = λ d e.
      subst (IsAccepted codec header) (same_some document d (sym (idem text document h) ∙ e))
        (text, k, h)

  create-AreAccepted :
      (env : Env) (kind slug title summary document : String) (t : Tables)
      → IsSource document
      → AreAccepted codec header t
      → AreAccepted codec header (create codec env kind slug title summary document t).1
  unfolding create
  create-AreAccepted env kind slug title summary document t k h =
      finish_keeps (AreAccepted codec header) env.commit t
        (create_tx codec env kind slug title summary document t) h
        (λ a u e.
          let (d, hd, fresh, hk, ht, hr, ha, hu) =
            create_tx_writes codec env kind slug title summary document t u a e in
          subst (AreAccepted codec header) (sym hu) (k d hd, h))

  update-AreAccepted :
      (env : Env) (id : ℕ) (base : ℤ) (title summary document : String) (t : Tables)
      → IsSource document
      → AreAccepted codec header t
      → AreAccepted codec header (update codec env id base title summary document t).1
  unfolding update
  update-AreAccepted env id base title summary document t k h =
      finish_keeps (AreAccepted codec header) env.commit t
        (update_tx codec env id base title summary document t) h
        (λ a u e.
          let (x, found, hb, low, hr, d, hd, ha, hu) =
            update_tx_writes codec env id base title summary document t u a e in
          subst (AreAccepted codec header) (sym hu) (k d hd, h))

  revision_at-IsAccepted :
      (id : ℕ) (n : ℤ) (t : Tables) (v : RevisionRow)
      → revision_at id n t ≡ some v
      → AreAccepted codec header t
      → IsAccepted codec header v.document
  unfolding revision_at
  revision_at-IsAccepted id n t v found h =
      All-Any (λ (x : RevisionRow). IsAccepted codec header x.document) t.revisions v h
        (find_first_sound _ t.revisions v found).1

  restore-AreAccepted :
      (env : Env) (id : ℕ) (source base : ℤ) (seen t : Tables)
      → AreAccepted codec header seen
      → AreAccepted codec header t
      → AreAccepted codec header (restore codec env id source base seen t).1
  unfolding restore restore_item
  restore-AreAccepted env id source base seen t k h =
      elim (Result-cases (get codec env id source seen)) [
        | inr (x, e) ↦ rw e h
        | inl (item, e) ↦
            let (b, v, hb, hv, hi) = get-wanted codec env id source seen item e in
            rw e (
              update-AreAccepted env id base _ _ (document_of item) t
                (subst (λ (i : Asset). IsSource (document_of i)) (sym hi)
                  (IsAccepted-IsSource v.document (revision_at-IsAccepted id _ seen v hv k)))
                h)
      ]

  archive-AreAccepted :
      (env : Env) (id : ℕ) (t : Tables)
      → AreAccepted codec header t
      → AreAccepted codec header (archive codec env id t).1
  unfolding archive archive_asset
  archive-AreAccepted env id t h = elim (Option-cases (env.fault write_asset)) [
    | inl e ↦ rw (e, archive) (autocommit_keeps (AreAccepted codec header) env.commit t _ h h)
    | inr (x, e) ↦ rw (e, archive) h
  ]

  module _ (W E : Type 0) where
    -- Requests to servers that read documents alike, one after the other, from empty tables. A restore
    -- may read tables of before. Between the requests the dispatcher may mark events.
    pub data Served : Tables → Type 0 where
      start : Served empty
      request :
          {seen t : Tables} (s : Server W E) (e : Endpoint) (r : Request) (w : W)
          → s.codec ≡ codec
          → s.readers.header ≡ header
          → Served seen
          → Served t
          → Served (serve s e r seen t w).1
      marked :
          {t : Tables} (now : ℕ) (e : EventRow)
          → Served t
          → Served (record t { outbox = mark_row now e.id t.outbox })

    Served-AreAccepted : (t : Tables) → Served t → AreAccepted codec header t
    Served-AreAccepted t start = tt
    Served-AreAccepted t (marked now e before) = Served-AreAccepted _ before
    Served-AreAccepted t (request {seen = v} {t = u} s e r w c d read before) =
        let at_seen = Served-AreAccepted v read in
        let at_u = Served-AreAccepted u before in
        serve_keeps s r v u (AreAccepted codec header) at_u
          (λ body k.
            rw c (create-AreAccepted s.env _ _ _ _ _ u (IsDocument-IsSource _ (rw d at k)) at_u))
          (λ id base body k.
            rw c
              (update-AreAccepted s.env id base _ _ _ u (IsDocument-IsSource _ (rw d at k)) at_u))
          (λ id. rw c (archive-AreAccepted s.env id u at_u))
          (λ id source base. rw c (restore-AreAccepted s.env id source base v u at_seen at_u)) e w

    Served-IsConsistent : (t : Tables) → Served t → IsConsistent t
    Served-IsConsistent t start = Reach-IsConsistent codec empty here
    Served-IsConsistent t (marked {t = u} now e before) =
        mark-IsConsistent now e (record { tables = u; channel = [] }) (Served-IsConsistent u before)
    Served-IsConsistent t (request {seen = v} {t = u} s e r w c d read before) =
        let at_u = Served-IsConsistent u before in
        serve_keeps s r v u IsConsistent at_u
          (λ body k. client-IsConsistent s.codec (by_create s.env _ _ _ _ _ refl) at_u)
          (λ id base body k. client-IsConsistent s.codec (by_update s.env id base _ _ _ refl) at_u)
          (λ id. client-IsConsistent s.codec (by_archive s.env id refl) at_u)
          (λ id source base.
            client-IsConsistent s.codec (by_restore s.env id source base v refl) at_u)
          e w

    -- If normalising a document twice is normalising it once: whatever requests a server gets, whatever
    -- fails and whatever the dispatcher marks, the revisions of each asset are 1 to its latest, with
    -- exactly one event each, and every stored document, restored ones too, is the database's normal
    -- form of a text that the server read as a Chart or a Dashboard of flooks.io/v1alpha1.
    pub Served-IsSound : (t : Tables) → Served t → IsConsistent t × AreAccepted codec header t
    Served-IsSound t before = (Served-IsConsistent t before, Served-AreAccepted t before)
