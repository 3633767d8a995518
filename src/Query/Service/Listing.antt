-- ===== src/Query/Service/Listing.antt =====
-- internal/query/service.go: `Manifests`, the listing of the service's datasets.
use flooks.Common.{
  String, ◌≡◌, ◌≢◌, refl, sym, ap, ◌∙◌, Bool, true, false, Bool-cases, inl, inr, Option, none, some,
  List, [], ◌∷◌, ok, find_first, All, All-map, arith, ◌==◌, eq_iff, eq_refl, if◌then◌else◌,
}
use flooks.Common.Dict.{lookup}
use flooks.Common.Text.Order.{text_lt, text_lt_irrefl, text_lt_trans, text_lt_connex}
use flooks.Domain.Manifest.{DatasetManifest}
use flooks.Query.Service.{Connector, Service, new_service, manifest}
use flooks.Query.Service.Registry.{new_service-IsRegistered}

-- `slices.SortFunc` by the keys.
unfoldable pub insert_by_key : DatasetManifest → List DatasetManifest → List DatasetManifest
insert_by_key m [] = m ∷ []
insert_by_key m (x ∷ xs) = if text_lt m.key x.key then m ∷ x ∷ xs else x ∷ insert_by_key m xs

unfoldable pub sort_by_key : List DatasetManifest → List DatasetManifest
unfolding insert_by_key
sort_by_key [] = []
sort_by_key (m ∷ ms) = insert_by_key m (sort_by_key ms)

abbrev pub values : List (String × DatasetManifest) → List DatasetManifest
values [] = []
values ((key, m) ∷ entries) = m ∷ values entries

-- `Service.Manifests`, from the entries in the order in which `range` has the map.
unfoldable pub manifests : List (String × DatasetManifest) → List DatasetManifest
unfolding sort_by_key
manifests entries = sort_by_key (values entries)

abbrev pub at_key : String → List DatasetManifest → Option DatasetManifest
at_key key ms = find_first (λ (m : DatasetManifest). m.key == key) ms

-- No key stands twice.
abbrev pub AreDistinct : List (String × DatasetManifest) → Type 0
AreDistinct [] = Unit
AreDistinct ((key, m) ∷ entries) = (lookup key entries ≡ none) × AreDistinct entries

-- `range` has each key of the map once, with its value, in some order.
pub record IsRange (known entries : List (String × DatasetManifest)) : Type 0 where
  pub distinct : AreDistinct entries
  pub same : (key : String) → lookup key entries ≡ lookup key known

abbrev pub AreAbove : String → List DatasetManifest → Type 0
AreAbove key ms = All (λ (m : DatasetManifest). text_lt key m.key ≡ true) ms

-- The keys ascend, each once.
abbrev pub IsAscending : List DatasetManifest → Type 0
IsAscending [] = Unit
IsAscending (m ∷ ms) = AreAbove m.key ms × IsAscending ms

-- No manifest above a key has that key, or one below it.
at_key_above :
    (key k : String) (ms : List DatasetManifest)
    → AreAbove key ms
    → text_lt key k ≡ false
    → at_key k ms ≡ none
at_key_above key k [] h e = refl
at_key_above key k (m ∷ ms) (p, h) e = ground (arith, at_key_above key k ms h e, eq_iff m.key k)

insert_by_key-AreAbove :
    (key : String) (m : DatasetManifest) (ms : List DatasetManifest)
    → text_lt key m.key ≡ true
    → AreAbove key ms
    → AreAbove key (insert_by_key m ms)
unfolding insert_by_key
insert_by_key-AreAbove key m [] e h = (e, tt)
insert_by_key-AreAbove key m (x ∷ xs) e (p, h) = ground (arith, insert_by_key-AreAbove key m xs e h)

AreAbove-trans :
    (a b : String) (ms : List DatasetManifest) → text_lt a b ≡ true → AreAbove b ms → AreAbove a ms
AreAbove-trans a b ms e h = All-map (λ m p. text_lt_trans a b m.key e p) ms h

insert_by_key-IsAscending :
    (m : DatasetManifest) (ms : List DatasetManifest)
    → at_key m.key ms ≡ none
    → IsAscending ms
    → IsAscending (insert_by_key m ms)
unfolding insert_by_key
insert_by_key-IsAscending m [] n h = (tt, tt)
insert_by_key-IsAscending m (x ∷ xs) n (p, h) = elim (Bool-cases (text_lt m.key x.key)) [
  | inl below ↦ rw below ((below, AreAbove-trans m.key x.key xs below p), (p, h))
  | inr other ↦
      let apart : x.key ≢ m.key = λ e. ground (arith, eq_iff x.key m.key) in
      let rest : at_key m.key xs ≡ none = ground (arith, eq_iff x.key m.key) in
      let above : text_lt x.key m.key ≡ true = ground (arith, text_lt_connex m.key x.key) in
      rw other (insert_by_key-AreAbove x.key m xs above p, insert_by_key-IsAscending m xs rest h)
]

at_key-insert_by_key :
    (k : String) (m : DatasetManifest) (ms : List DatasetManifest)
    → at_key m.key ms ≡ none
    → at_key k (insert_by_key m ms) ≡ (if m.key == k then some m else at_key k ms)
unfolding insert_by_key
at_key-insert_by_key k m [] n = refl
at_key-insert_by_key k m (x ∷ xs) n =
    ground (arith, at_key-insert_by_key k m xs, eq_iff m.key k, eq_iff x.key k, eq_iff x.key m.key)

-- The entries stand under the keys of their manifests.
abbrev pub AreKeyed : List (String × DatasetManifest) → Type 0
AreKeyed entries = (key : String) (m : DatasetManifest) → lookup key entries ≡ some m → m.key ≡ key

AreKeyed-tail :
    (key : String) (m : DatasetManifest) (entries : List (String × DatasetManifest))
    → lookup key entries ≡ none
    → AreKeyed ((key, m) ∷ entries)
    → (m.key ≡ key) × AreKeyed entries
unfolding lookup
AreKeyed-tail key m entries n h =
    (h key m (ground (arith, eq_refl key)), λ k x e. h k x (ground (arith, eq_iff key k)))

pub at_key-manifests :
    (entries : List (String × DatasetManifest))
    → AreDistinct entries
    → AreKeyed entries
    → (k : String) → at_key k (manifests entries) ≡ lookup k entries
unfolding manifests lookup
at_key-manifests [] d h k = refl
at_key-manifests ((key, m) ∷ entries) (n, d) h k =
    let (same, rest) = AreKeyed-tail key m entries n h in
    let free : at_key m.key (manifests entries) ≡ none =
      at_key-manifests entries d rest m.key ∙ ap (λ x. lookup x entries) same ∙ n in
    at_key-insert_by_key k m (manifests entries) free
    ∙ ground (arith, same, at_key-manifests entries d rest k)

pub manifests-IsAscending :
    (entries : List (String × DatasetManifest))
    → AreDistinct entries
    → AreKeyed entries
    → IsAscending (manifests entries)
unfolding manifests
manifests-IsAscending [] d h = tt
manifests-IsAscending ((key, m) ∷ entries) (n, d) h =
    let (same, rest) = AreKeyed-tail key m entries n h in
    insert_by_key-IsAscending m (manifests entries)
      (at_key-manifests entries d rest m.key ∙ ap (λ x. lookup x entries) same ∙ n)
      (manifests-IsAscending entries d rest)

-- A manifest whose key is below all is found behind none of them.
pub first_only :
    (x : DatasetManifest) (ys : List DatasetManifest) → AreAbove x.key ys → at_key x.key ys ≡ none
first_only x ys h = at_key_above x.key x.key ys h (text_lt_irrefl x.key)

-- The head of an ascending list is found in no other list that is all above it.
not_below :
    (x y : DatasetManifest) (xs ys : List DatasetManifest)
    → AreAbove y.key ys
    → at_key x.key (x ∷ xs) ≡ at_key x.key (y ∷ ys)
    → text_lt x.key y.key ≡ false
not_below x y xs ys q e = elim (Bool-cases (text_lt x.key y.key)) [
  | inr other ↦ other
  | inl below ↦
      let none_there : at_key x.key (y ∷ ys) ≡ none =
        first_only x (y ∷ ys) (below, AreAbove-trans x.key y.key ys below q) in
      absurd (ground (arith, eq_refl x.key))
]

-- Ascending lists in which the same manifests are found are one list.
pub ascending_unique :
    (xs ys : List DatasetManifest)
    → IsAscending xs
    → IsAscending ys
    → ((k : String) → at_key k xs ≡ at_key k ys)
    → xs ≡ ys
ascending_unique [] [] h k e = refl
ascending_unique [] (y ∷ ys) h k e = absurd (ground (arith, e y.key, eq_refl y.key))
ascending_unique (x ∷ xs) [] h k e = absurd (ground (arith, e x.key, eq_refl x.key))
ascending_unique (x ∷ xs) (y ∷ ys) (p, h) (q, k) e =
    let keys : x.key ≡ y.key =
      text_lt_connex x.key y.key (not_below x y xs ys q (e x.key))
        (not_below y x ys xs p (sym (e y.key))) in
    let heads : x ≡ y = ground (arith, e x.key, eq_refl x.key, eq_iff y.key x.key) in
    let tails : xs ≡ ys = ascending_unique xs ys h k (λ j. behind j keys) in
    ap (λ m. m ∷ xs) heads ∙ ap (λ ms. y ∷ ms) tails
  where
    behind : (j : String) → x.key ≡ y.key → at_key j xs ≡ at_key j ys
    behind j keys =
        ground (arith, e j, first_only x xs p, first_only y ys q, eq_iff x.key j, eq_iff y.key j)

-- Of a service that `NewService` made: whatever the order in which Go ranges over its map, `Manifests`
-- is one list. Its keys ascend, each once, and it holds under a key the manifest that `Manifest`
-- returns for it, and none under a key for which `Manifest` finds none.
pub manifests-new_service :
    {W E : Type 0} (ms : List DatasetManifest) (cs : List (Connector W E)) (has_cache : Bool)
    (s : Service W E) (entries others : List (String × DatasetManifest))
    → new_service ms cs has_cache ≡ ok s
    → IsRange s.manifests entries
    → IsRange s.manifests others
    → (manifests entries ≡ manifests others)
      × IsAscending (manifests entries)
      × ((key : String) → at_key key (manifests entries) ≡ manifest s key)
unfolding manifest
manifests-new_service ms cs has_cache s entries others made a b = (
  ascending_unique (manifests entries) (manifests others)
      (manifests-IsAscending entries a.distinct (keyed entries a))
      (manifests-IsAscending others b.distinct (keyed others b))
      (λ k. found entries a k ∙ sym (found others b k)),
  manifests-IsAscending entries a.distinct (keyed entries a),
  λ k. found entries a k,
)
  where
    keyed : (es : List (String × DatasetManifest)) → IsRange s.manifests es → AreKeyed es
    keyed es r = λ key m h.
        (new_service-IsRegistered ms cs has_cache s made).at_key key m (sym (r.same key) ∙ h)

    found :
        (es : List (String × DatasetManifest))
        → IsRange s.manifests es
        → (k : String) → at_key k (manifests es) ≡ lookup k s.manifests
    found es r k = at_key-manifests es r.distinct (keyed es r) k ∙ r.same k
