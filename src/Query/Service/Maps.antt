-- ===== src/Query/Service/Maps.antt =====
-- internal/query/service.go: the manifests of a service, which are a Go map, and their listing.
use mathlib.Core.Quot
use mathlib.Core.Quot.{Quot, Quot-set}
use mathlib.Core.HLevel.{Σ_prop_path}
use mathlib.Core.Equiv.{IsEquiv, Iso, iso_to_equiv}
use text.Mathlib.TextEquality.{IsScalar-prop}
use flooks.Common.{
  String, ◌≡◌, refl, sym, ◌∙◌, List, [], ◌∷◌, find_first_sound, arith, ◌==◌, eq_iff,
}
use flooks.Common.Dict.{lookup}
use flooks.Domain.Manifest.{DatasetManifest}
use flooks.Query.Service.Listing.{
  manifests, at_key, AreDistinct, AreKeyed, AreAbove, IsAscending, at_key-manifests,
  manifests-IsAscending, ascending_unique, first_only,
}

-- The entries of a map, in the order in which `range` may have them, each under its manifest's key.
abbrev pub Entries : Type 0
Entries = (entries : List (String × DatasetManifest)) × AreDistinct entries × AreKeyed entries

abbrev AreAlike : Entries → Entries → Type 0
AreAlike a b = (key : String) → lookup key a.0 ≡ lookup key b.0

-- The map: its entries without their order.
abbrev pub Map : Type 0
Map = Quot AreAlike

-- A list of manifests whose keys ascend, each once.
abbrev pub Listing : Type 0
Listing = (ms : List DatasetManifest) × IsAscending ms

manifest_set : IsSet DatasetManifest
manifest_set = hlevel IsScalar-prop

AreAbove-prop : (key : String) (ms : List DatasetManifest) → IsProp (AreAbove key ms)
AreAbove-prop key [] = hlevel
AreAbove-prop key (m ∷ ms) = hlevel (AreAbove-prop key ms)

IsAscending-prop : (ms : List DatasetManifest) → IsProp (IsAscending ms)
IsAscending-prop [] = hlevel
IsAscending-prop (m ∷ ms) = hlevel (AreAbove-prop m.key ms, IsAscending-prop ms)

Listing-set : IsSet Listing
Listing-set = hlevel (manifest_set, IsAscending-prop)

abbrev listed : Entries → Listing
listed (entries, distinct, keyed) =
    (manifests entries, manifests-IsAscending entries distinct keyed)

listed_alike : (a b : Entries) → AreAlike a b → listed a ≡ listed b
listed_alike (xs, d, k) (ys, d', k') same = Σ_prop_path IsAscending-prop (
    ascending_unique (manifests xs) (manifests ys) (manifests-IsAscending xs d k)
      (manifests-IsAscending ys d' k')
      (λ key. at_key-manifests xs d k key ∙ same key ∙ sym (at_key-manifests ys d' k' key)))

abbrev entries_of : List DatasetManifest → List (String × DatasetManifest)
entries_of [] = []
entries_of (m ∷ ms) = (m.key, m) ∷ entries_of ms

lookup-entries_of :
    (ms : List DatasetManifest) (key : String) → lookup key (entries_of ms) ≡ at_key key ms
unfolding lookup
lookup-entries_of [] key = refl
lookup-entries_of (m ∷ ms) key = ground (arith, lookup-entries_of ms key)

entries_of-AreDistinct : (ms : List DatasetManifest) → IsAscending ms → AreDistinct (entries_of ms)
entries_of-AreDistinct [] h = tt
entries_of-AreDistinct (m ∷ ms) (above, h) =
    (lookup-entries_of ms m.key ∙ first_only m ms above, entries_of-AreDistinct ms h)

entries_of-AreKeyed : (ms : List DatasetManifest) → AreKeyed (entries_of ms)
entries_of-AreKeyed ms key m h =
    (eq_iff m.key key).0
      (find_first_sound (λ (x : DatasetManifest). x.key == key) ms m
        (sym (lookup-entries_of ms key) ∙ h)).0

abbrev unlisted : Listing → Entries
unlisted (ms, h) = (entries_of ms, entries_of-AreDistinct ms h, entries_of-AreKeyed ms)

listed-unlisted : (l : Listing) → listed (unlisted l) ≡ l
listed-unlisted (ms, h) = Σ_prop_path IsAscending-prop (
    ascending_unique (manifests (entries_of ms)) ms
      (manifests-IsAscending (entries_of ms) (entries_of-AreDistinct ms h) (entries_of-AreKeyed ms))
      h
      (λ key.
        at_key-manifests (entries_of ms) (entries_of-AreDistinct ms h) (entries_of-AreKeyed ms) key
        ∙ lookup-entries_of ms key))

unlisted-listed : (e : Entries) → AreAlike (unlisted (listed e)) e
unlisted-listed (entries, distinct, keyed) key =
    lookup-entries_of (manifests entries) key ∙ at_key-manifests entries distinct keyed key

-- `Manifests`, on the map.
unfoldable listing : Map → Listing
listing = Quot.lift Listing-set listed listed_alike

listing_iso : Iso Map Listing
unfolding listing
listing_iso = record {
  fun = listing;
  inv = λ l. Quot.mk (unlisted l);
  rinv = listed-unlisted;
  linv = Quot.ind (λ q. Quot-set _ _) (λ e. Quot.sound (unlisted-listed e));
}

-- `Manifests` is well defined on the maps of manifests by their keys, which have no order: it is the
-- listing of the entries in any order in which `range` may have them. And it makes the maps one to one
-- with the lists of manifests whose keys ascend, each once.
listing-IsEquiv :
    IsEquiv listing × ((entries : Entries) → (listing (Quot.mk entries)).0 ≡ manifests entries.0)
unfolding listing_iso listing
listing-IsEquiv = ((iso_to_equiv listing_iso).1, λ entries. refl)
