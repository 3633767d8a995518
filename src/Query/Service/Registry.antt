-- ===== src/Query/Service/Registry.antt =====
-- What `NewService` makes sure of.
use flooks.Common.{
  ok_inj, String, ◌≡◌, ◌∙◌, Option-cases, Bool-cases, ◌==◌, if◌then◌else◌, refl, subst, sym, ap,
  Bool, Option, none, some, List, [], ◌∷◌, ok, >>=-eq-ok, arith, eq_iff, inl, inr,
}
use flooks.Common.Dict.{lookup, insert, lookup-insert, lookup-insert_cases}
use flooks.Domain.Manifest.{DatasetManifest}
use flooks.Query.Service.{Connector, Service, register, check_manifest, add_manifests, new_service}

-- The last of the manifests that has the key.
unfoldable pub last_of : String → List DatasetManifest → Option DatasetManifest
last_of key [] = none
last_of key (m ∷ ms) = elim (last_of key ms) [
  | some later ↦ some later
  | none ↦ if m.key == key then some m else none
]

abbrev get_or_else : Option DatasetManifest → Option DatasetManifest → Option DatasetManifest
get_or_else none o = o
get_or_else (some m) o = some m

either :
    (m : DatasetManifest) (known : List (String × DatasetManifest)) (key : String)
    → lookup key (insert m.key m known)
      ≡ get_or_else (if m.key == key then some m else none) (lookup key known)
either m known key = elim (Bool-cases (m.key == key)) [
  | inl e ↦ lookup-insert m.key key m known ∙ rw e refl
  | inr e ↦ lookup-insert m.key key m known ∙ rw e refl
]

nothing :
    (key : String) (ms : List DatasetManifest)
    → get_or_else (last_of key ms) (lookup key []) ≡ last_of key ms
unfolding lookup
nothing key ms = elim (Option-cases (last_of key ms)) [ inl e ↦ rw e refl | inr (m, e) ↦ rw e refl ]

module _ {W E : Type 0} where
  -- A connector of that kind is registered and accepts the manifest.
  abbrev pub IsServed : List (String × Connector W E) → DatasetManifest → Type 0
  IsServed connectors m =
      (c : Connector W E) × (lookup m.connector connectors ≡ some c)
      × (c.kind ≡ m.connector)
      × (c.validate_manifest m ≡ ok tt)

  -- Under a key stands the last of the given manifests that has it, if there is one; and each
  -- manifest that stands there is served.
  pub record IsRegistered (ms : List DatasetManifest) (s : Service W E) : Type 0 where
    pub found : (key : String) → lookup key s.manifests ≡ last_of key ms
    pub at_key :
        (key : String) (m : DatasetManifest) → lookup key s.manifests ≡ some m → m.key ≡ key
    pub served :
        (key : String) (m : DatasetManifest)
        → lookup key s.manifests ≡ some m
        → IsServed s.connectors m

  abbrev HasKinds : List (String × Connector W E) → Type 0
  HasKinds cs = (k : String) (c : Connector W E) → lookup k cs ≡ some c → c.kind ≡ k

  register-HasKinds :
      (cs : List (Connector W E)) (known : List (String × Connector W E))
      → HasKinds known
      → HasKinds (register cs known)
  unfolding register
  register-HasKinds [] known h = h
  register-HasKinds (c ∷ cs) known h =
      register-HasKinds cs (insert c.kind c known)
        (λ k d e. ground (arith, lookup-insert c.kind k c known, eq_iff c.kind k, h k d))

  check_manifest_ok :
      (m : DatasetManifest) (o : Option (Connector W E))
      → check_manifest m o ≡ ok tt
      → (c : Connector W E) × (o ≡ some c) × (c.validate_manifest m ≡ ok tt)
  unfolding check_manifest
  check_manifest_ok m none h = cc
  check_manifest_ok m (some c) h = (c, refl, ground arith)

  -- What `NewService` holds of the manifests it has added.
  record Added (connectors : List (String × Connector W E))
      (known : List (String × DatasetManifest)) : Type 0 where
    at_key : (key : String) (m : DatasetManifest) → lookup key known ≡ some m → m.key ≡ key
    served :
        (key : String) (m : DatasetManifest) → lookup key known ≡ some m → IsServed connectors m

  insert-Added :
      (connectors : List (String × Connector W E)) (known : List (String × DatasetManifest))
      (m : DatasetManifest)
      → IsServed connectors m
      → Added connectors known
      → Added connectors (insert m.key m known)
  insert-Added connectors known m v a = record {
    at_key = λ key n e.
        ground (arith, lookup-insert m.key key m known, eq_iff m.key key, a.at_key key n);
    served = λ key n e. elim (lookup-insert_cases m.key key m n known e) [
      | inl (same, new) ↦ subst (IsServed connectors) new v
      | inr old ↦ a.served key n old
    ];
  }

  add_manifests-Added :
      (connectors : List (String × Connector W E)) (ms : List DatasetManifest)
      (known added : List (String × DatasetManifest))
      → HasKinds connectors
      → Added connectors known
      → add_manifests connectors ms known ≡ ok added
      → Added connectors added
  unfolding add_manifests
  add_manifests-Added connectors [] known added k a h =
      subst (Added connectors) (ok_inj known added h) a
  add_manifests-Added connectors (m ∷ ms) known added k a h =
      let (u, checked, rest) = >>=-eq-ok (check_manifest m (lookup m.connector connectors)) _ h in
      let (c, found, valid) = check_manifest_ok m _ checked in
      add_manifests-Added connectors ms (insert m.key m known) added k
        (insert-Added connectors known m (c, found, k m.connector c found, valid) a) rest

  -- What is found is the last of the manifests that has the key, or else what was found before.
  lookup-add_manifests :
      (connectors : List (String × Connector W E)) (ms : List DatasetManifest)
      (known added : List (String × DatasetManifest)) (key : String)
      → add_manifests connectors ms known ≡ ok added
      → lookup key added ≡ get_or_else (last_of key ms) (lookup key known)
  unfolding add_manifests last_of
  lookup-add_manifests connectors [] known added key h =
      ap (lookup key) (sym (ok_inj known added h))
  lookup-add_manifests connectors (m ∷ ms) known added key h =
      let (u, checked, rest) = >>=-eq-ok (check_manifest m (lookup m.connector connectors)) _ h in
      lookup-add_manifests connectors ms (insert m.key m known) added key rest
      ∙ elim (Option-cases (last_of key ms)) [
        | inl e ↦ rw e (either m known key)
        | inr (later, e) ↦ rw e refl
      ]

  -- The connectors of a service are those that were registered, found by their kinds.
  connectors-new_service :
      (ms : List DatasetManifest) (cs : List (Connector W E)) (has_cache : Bool) (s : Service W E)
      → new_service ms cs has_cache ≡ ok s
      → s.connectors ≡ register cs []
  unfolding new_service
  connectors-new_service ms cs has_cache s h =
      let (known, added, same) = >>=-eq-ok (add_manifests (register cs []) ms []) _ h in
      sym (ap (λ (x : Service W E). x.connectors) (ok_inj _ s same))

  -- A service that was made with one connector calls no other.
  pub only_connector :
      (ms : List DatasetManifest) (c d : Connector W E) (has_cache : Bool) (s : Service W E)
      (kind : String)
      → new_service ms (c ∷ []) has_cache ≡ ok s
      → lookup kind s.connectors ≡ some d
      → (kind ≡ c.kind) × (c ≡ d)
  unfolding register lookup insert
  only_connector ms c d has_cache s kind made found =
      only (rw (connectors-new_service ms (c ∷ []) has_cache s made) at found)
    where
      only : lookup kind (register (c ∷ []) []) ≡ some d → (kind ≡ c.kind) × (c ≡ d)
      only h = ground (arith, eq_iff c.kind kind)

  -- A service that `NewService` returned has under a key the last of the given manifests that has
  -- it, and none if none has; and for each manifest it has, a connector of the manifest's kind, under
  -- that kind, that accepts the manifest.
  pub new_service-IsRegistered :
      (ms : List DatasetManifest) (cs : List (Connector W E)) (has_cache : Bool) (s : Service W E)
      → new_service ms cs has_cache ≡ ok s
      → IsRegistered ms s
  unfolding new_service
  new_service-IsRegistered ms cs has_cache s h =
      let (known, added, same) = >>=-eq-ok (add_manifests (register cs []) ms []) _ h in
      let a =
        add_manifests-Added (register cs []) ms [] known
          (register-HasKinds cs [] (λ k c e. unfold lookup in cc))
          (record { at_key = λ k m e. unfold lookup in cc; served = λ k m e. unfold lookup in cc })
          added in
      subst (IsRegistered ms) (ok_inj _ s same) (record {
        found = λ key. lookup-add_manifests (register cs []) ms [] known key added ∙ nothing key ms;
        at_key = a.at_key;
        served = a.served;
      })
