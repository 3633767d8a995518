-- ===== src/Assets/Bounds.antt =====
-- The revision numbers of the assets, within the 32-bit columns.
use flooks.Common.{ℕ, ◌≤◌, String, ◌≡◌, refl, sym, subst, some, ok, arith, inl, inr, Option-cases}
use flooks.Common.Int.{ℤ}
use flooks.Assets.Tables.{
  AssetRow, Tables, empty, max_int4, asset_at, archive_asset, retitled, archived_row,
}
use flooks.Assets.Store.{Asset, Codec, Env, create_tx, update_tx}
use flooks.Assets.Store.Writes.{create_tx_writes, update_tx_writes}
use flooks.Assets.Invariant.{asset_at-update_row}
use flooks.Assets.History.{Reach, Reach_keeps}

-- The latest revision is a positive number that the column holds.
abbrev pub IsNumbered : AssetRow → Type 0
IsNumbered a = (1 ≤ a.latest_revision) × (a.latest_revision ≤ max_int4)

abbrev AreNumbered : Tables → Type 0
AreNumbered t = (id : ℕ) (a : AssetRow) → asset_at id t ≡ some a → IsNumbered a

module _ (codec : Codec) where
  creates :
      (env : Env) (kind slug title summary document : String) (t u : Tables) (a : Asset)
      → AreNumbered t
      → create_tx codec env kind slug title summary document t ≡ ok (a, u)
      → AreNumbered u
  unfolding asset_at
  creates env kind slug title summary document t u a h e =
      let (d, hd, fresh, hk, ht, hr, ha, hu) =
        create_tx_writes codec env kind slug title summary document t u a e in
      subst AreNumbered (sym hu) (λ j x q. ground (arith, h j x))

  updates :
      (env : Env) (id : ℕ) (base : ℤ) (title summary document : String) (t u : Tables) (a : Asset)
      → AreNumbered t
      → update_tx codec env id base title summary document t ≡ ok (a, u)
      → AreNumbered u
  unfolding asset_at
  updates env id base title summary document t u a h e =
      let (x, found, hb, low, hr, d, hd, ha, hu) =
        update_tx_writes codec env id base title summary document t u a e in
      subst AreNumbered (sym hu) (λ j y q. ground (
        arith,
        found,
        h j y,
        h j x,
        h id x,
        asset_at-update_row id j (retitled env.now title) t.assets (λ a. refl),
      ))

  archives :
      (env : Env) (id : ℕ) (t : Tables) → AreNumbered t → AreNumbered (archive_asset env.now id t)
  unfolding asset_at archive_asset
  archives env id t h = λ j y q. elim (Option-cases (asset_at j t)) [
    | inl e ↦
        absurd
          (ground (arith, asset_at-update_row id j (archived_row env.now) t.assets (λ a. refl)))
    | inr (x, e) ↦
        ground
          (arith, h j x e, asset_at-update_row id j (archived_row env.now) t.assets (λ a. refl))
  ]

-- In tables that the store's methods made, the latest revision of each asset is from 1 to 2^31 - 1,
-- whatever the clients did: no update wraps it around.
pub Reach-IsNumbered :
    (codec : Codec) (t : Tables) (id : ℕ) (a : AssetRow)
    → Reach codec empty t
    → asset_at id t ≡ some a
    → IsNumbered a
unfolding asset_at
Reach-IsNumbered codec t id a r h =
    Reach_keeps codec AreNumbered (creates codec) (updates codec) (archives codec) r (λ j y q. cc)
      id a h
