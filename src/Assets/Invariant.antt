-- ===== src/Assets/Invariant.antt =====
-- What holds of the tables between transactions.
use native.Mathlib.Numerals.{add-one}
use flooks.Common.{
  ℕ, zero, suc, String, ◌≡◌, refl, sym, subst, Option, none, some, List, [], ◌∷◌, ok, find_first,
  find_first_sound, nat_eq, nat_eq_iff, arith, if◌then◌else◌,
}
use flooks.Common.Int.{ℤ}
use flooks.Assets.Tables.{
  AssetRow, RevisionRow, EventRow, Tables, asset_at, archive_asset, update_row, retitled,
  archived_row,
}
use flooks.Assets.Store.Writes.{create_tx_writes, update_tx_writes}
use flooks.Assets.Store.{Asset, Codec, Env, create_tx, update_tx}

-- n, n - 1, …, 1
abbrev pub countdown : ℕ → List ℕ
countdown zero = []
countdown (suc n) = suc n ∷ countdown n

abbrev pub latest : Option AssetRow → ℕ
latest none = 0
latest (some a) = a.latest_revision

-- The revisions of an asset, and those that its events name, newest first.
abbrev pub revisions_of : ℕ → List RevisionRow → List ℕ
revisions_of id [] = []
revisions_of id (v ∷ vs) =
    let rest = revisions_of id vs in if nat_eq v.asset_id id then v.revision ∷ rest else rest

abbrev pub events_of : ℕ → List EventRow → List ℕ
events_of id [] = []
events_of id (e ∷ es) =
    let rest = events_of id es in
    if nat_eq e.payload.resource_id id then e.payload.revision ∷ rest else rest

-- The revisions of each asset are 1 to its latest, each once; there are none of an asset that is not
-- there; and each revision has exactly one event, in the same order.
pub record IsConsistent (t : Tables) : Type 0 where
  pub revisions : (id : ℕ) → revisions_of id t.revisions ≡ countdown (latest (asset_at id t))
  pub events : (id : ℕ) → events_of id t.outbox ≡ revisions_of id t.revisions

-- An update that keeps the ids changes the row of its id alone.
abbrev pub changed : (AssetRow → AssetRow) → Option AssetRow → Option AssetRow
changed f none = none
changed f (some a) = some (f a)

pub asset_at-update_row :
    (id j : ℕ) (f : AssetRow → AssetRow) (rows : List AssetRow)
    → ((a : AssetRow) → (f a).id ≡ a.id)
    → find_first (λ a. nat_eq a.id j) (update_row id f rows) ≡ (
        if nat_eq id j
        then changed f (find_first (λ a. nat_eq a.id j) rows)
        else find_first (λ a. nat_eq a.id j) rows)
unfolding update_row
asset_at-update_row id j f [] h = ground arith
asset_at-update_row id j f (a ∷ rows) h = ground (arith, h a, asset_at-update_row id j f rows h)

module _ (codec : Codec) (env : Env) where
  pub create_tx-IsConsistent :
      (kind slug title summary document : String) (t u : Tables) (a : Asset)
      → IsConsistent t
      → create_tx codec env kind slug title summary document t ≡ ok (a, u)
      → IsConsistent u
  unfolding asset_at
  create_tx-IsConsistent kind slug title summary document t u a v h =
      let (d, hd, fresh, hk, ht, hr, ha, hu) =
        create_tx_writes codec env kind slug title summary document t u a h in
      subst IsConsistent (sym hu) (record {
        revisions = λ id. ground (arith, v.revisions id, v.revisions env.asset_id, fresh);
        events = λ id. ground (arith, v.events id);
      })

  pub update_tx-IsConsistent :
      (id : ℕ) (base : ℤ) (title summary document : String) (t u : Tables) (a : Asset)
      → IsConsistent t
      → update_tx codec env id base title summary document t ≡ ok (a, u)
      → IsConsistent u
  unfolding asset_at
  update_tx-IsConsistent id base title summary document t u a v h =
      let (x, found, hb, low, hr, d, hd, ha, hu) =
        update_tx_writes codec env id base title summary document t u a h in
      let name : x.id ≡ id =
        (nat_eq_iff x.id id).0 (find_first_sound (λ a. nat_eq a.id id) t.assets x found).0 in
      subst IsConsistent (sym hu) (record {
        revisions = λ j. ground (
          arith,
          v.revisions j,
          v.revisions id,
          found,
          asset_at-update_row id j (retitled env.now title) t.assets (λ a. refl),
          add-one x.latest_revision,
        );
        events = λ j. ground (arith, v.events j, name);
      })

  pub archive-IsConsistent :
      (id : ℕ) (t : Tables) → IsConsistent t → IsConsistent (archive_asset env.now id t)
  unfolding archive_asset asset_at
  archive-IsConsistent id t v = record {
    revisions = λ j. ground (
      arith,
      v.revisions j,
      asset_at-update_row id j (archived_row env.now) t.assets (λ a. refl),
    );
    events = v.events;
  }
