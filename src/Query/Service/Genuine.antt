-- ===== src/Query/Service/Genuine.antt =====
-- What the answers of `Execute` are, through any sequence of calls.
use text.Mathlib.TextLemmas.{append_cancel_left}
use flooks.Common.{
  String, ◌≡◌, ◌≢◌, ◌⊎◌, inl, inr, refl, sym, ap, ◌∙◌, subst, Bool, true, false, none, some, Result,
  ok, arith, ◌==◌, eq_iff, Bool-cases,
}
use flooks.Common.Int.{ℤ}
use flooks.Common.Text.{◌+++◌}
use flooks.Common.Dict.{lookup}
use flooks.Domain.Manifest.{DatasetManifest}
use flooks.Domain.Spec.{QuerySpec, QueryResult, KeyPayload, cache_key}
use flooks.Query.Validate.Defs.{validate}
use flooks.Query.Service.{Connector, Service, Services, execute}
use flooks.Query.Service.Answers.{Source, from_cache, from_flight, from_database, execute_source}
use flooks.Query.Service.Keeps.{execute_keeps}

-- Two texts with one digest.
abbrev pub Collides : (String → String) → Type 0
Collides digest = (a b : String) × (a ≢ b) × (digest a ≡ digest b)

module _ {E : Type 0} (marshal : KeyPayload → Result E String) (digest : String → String) where
  abbrev pub key_payload : QuerySpec → DatasetManifest → KeyPayload
  key_payload t m = record { version = m.version; connector = m.connector; spec = t }

  -- The two queries are one JSON text, with the manifests' versions and connectors.
  abbrev pub AreSame : QuerySpec → DatasetManifest → QuerySpec → DatasetManifest → Type 0
  AreSame t m t' m' =
      (text : String) × (marshal (key_payload t m) ≡ ok text)
      × (marshal (key_payload t' m') ≡ ok text)

  keyed_text :
      (t : QuerySpec) (m : DatasetManifest) (key : String)
      → cache_key marshal digest t m.version m.connector ≡ ok key
      → (text : String) × (marshal (key_payload t m) ≡ ok text)
        × ("flooks:query:" +++ digest text ≡ key)
  unfolding cache_key
  keyed_text t m key h = ground arith

  -- Queries with one key are the same, or the digest has a collision.
  cache_key-AreSame :
      (t t' : QuerySpec) (m m' : DatasetManifest) (key : String)
      → cache_key marshal digest t m.version m.connector ≡ ok key
      → cache_key marshal digest t' m'.version m'.connector ≡ ok key
      → AreSame t m t' m' ⊎ Collides digest
  cache_key-AreSame t t' m m' key h h' =
      let (a, ha, ka) = keyed_text t m key h in
      let (b, hb, kb) = keyed_text t' m' key h' in
      elim (Bool-cases (a == b)) [
        | inl same ↦ inl (a, ha, hb ∙ ap ok (sym ((eq_iff a b).0 same)))
        | inr other ↦
            inr (a, b, apart a b other, append_cancel_left "flooks:query:" _ _ (ka ∙ sym kb))
      ]
    where
      apart : (a b : String) → (a == b) ≡ false → a ≢ b
      apart a b other h = ground (arith, eq_iff a b)

module _ {W E : Type 0} (x : Services W E) (s : Service W E) where
  -- Nothing in the cache of a world is not in that of the other.
  abbrev pub Expires : W → W → Type 0
  Expires v w = (key payload : String) → x.get key v ≡ some payload → x.get key w ≡ some payload

  -- Calls of `Execute`, one after the other, from an empty cache. Between them entries may expire, and
  -- the databases may change.
  pub data Runs : W → Type 0 where
    start : {w : W} → ((key : String) → x.get key w ≡ none) → Runs w
    outside : {w v : W} → Runs w → Expires v w → Runs v
    call :
        {w : W} (spec : QuerySpec) (refresh : Bool) → Runs w → Runs (execute x s spec refresh w).1

  -- A connector was called for a query with that key, and answered with that result.
  pub record Answered (key : String) (r : QueryResult) : Type 0 where
    pub asked : QuerySpec
    pub normal : QuerySpec
    pub manifest : DatasetManifest
    pub connector : Connector W E
    pub before : W
    pub after : W
    pub valid : validate s.manifests asked ≡ ok (normal, manifest)
    pub keyed : cache_key x.marshal x.digest normal manifest.version manifest.connector ≡ ok key
    pub found : lookup manifest.connector s.connectors ≡ some connector
    pub reached : Runs before
    pub ran :
        connector.execute manifest.limits.timeout_seconds manifest normal before ≡ (ok r, after)

  -- Redis: what is read was there, or was written under the key. Connectors do not write to it. And a
  -- call that joins one in flight is given what a connector answered under the key.
  pub record IsHonest : Type 0 where
    pub reads :
        (key written payload p : String) (ttl : ℤ) (w : W)
        → x.get key (x.set written p ttl w) ≡ some payload
        → ((written ≡ key) × (p ≡ payload)) ⊎ (x.get key w ≡ some payload)
    pub leaves :
        (c : Connector W E) (kind : String) (seconds : ℤ) (m : DatasetManifest) (t : QuerySpec)
        (w : W)
        → lookup kind s.connectors ≡ some c
        → Expires (c.execute seconds m t w).1 w
    pub shares :
        (key : String) (w : W) (r : QueryResult) → x.joined key w ≡ some (ok r) → Answered key r

  -- Each entry of the cache is an encoded answer under its key.
  abbrev IsFilled : W → Type 0
  IsFilled w =
      (key payload : String)
      → x.get key w ≡ some payload
      → (r : QueryResult) × (x.encode r ≡ some payload) × Answered key r

  -- The result is a connector's answer to the same query, itself or as it comes back from JSON, then
  -- marked as cached.
  pub record IsGenuine (t : QuerySpec) (m : DatasetManifest) (r : QueryResult) : Type 0 where
    pub key : String
    pub answer : QueryResult
    pub answered : Answered key answer
    pub same : AreSame x.marshal x.digest t m answered.normal answered.manifest ⊎ Collides x.digest
    pub given :
        (r ≡ answer)
        ⊎ ((payload : String) × (found : QueryResult) × (x.encode answer ≡ some payload)
            × (x.decode payload ≡ some found)
            × (r ≡ record found { cached = true }))

  module _ (honest : IsHonest) where
    set-IsFilled :
        (r : QueryResult) (key payload : String) (ttl : ℤ) (v : W)
        → Answered key r
        → x.encode r ≡ some payload
        → IsFilled v
        → IsFilled (x.set key payload ttl v)
    set-IsFilled r key payload ttl v a e h = λ read found k.
        elim (honest.reads read key found payload ttl v k) [
          | inl (same, stored) ↦ (r, e ∙ ap some stored, subst (λ j. Answered j r) same a)
          | inr there ↦ h read found there
        ]

    Runs-IsFilled : (w : W) → Runs w → IsFilled w
    Runs-IsFilled w (start free) = λ key payload h. absurd (ground (arith, free key))
    Runs-IsFilled w (outside before expires) =
        λ key payload h. Runs-IsFilled _ before key payload (expires key payload h)
    Runs-IsFilled w (call {w = u} spec refresh before) =
        execute_keeps x s IsFilled Runs
          (λ asked t m c r key payload u v valid keyed found ran e reached h.
            set-IsFilled r key payload m.cache.ttl_seconds v
              (record {
                asked = asked;
                normal = t;
                manifest = m;
                connector = c;
                before = u;
                after = v;
                valid = valid;
                keyed = keyed;
                found = found;
                reached = reached;
                ran = ran;
              })
              e h)
          (λ asked t m c v valid found h key payload k.
            h key payload
              (honest.leaves c m.connector m.limits.timeout_seconds m t v found key payload k))
          spec refresh u before (Runs-IsFilled u before)

    genuine :
        (t : QuerySpec) (m : DatasetManifest) (key : String) (r answer : QueryResult)
        → cache_key x.marshal x.digest t m.version m.connector ≡ ok key
        → Answered key answer
        → (r ≡ answer)
          ⊎ ((payload : String) × (found : QueryResult) × (x.encode answer ≡ some payload)
              × (x.decode payload ≡ some found)
              × (r ≡ record found { cached = true }))
        → IsGenuine t m r
    genuine t m key r answer keyed a given = record {
      key = key;
      answer = answer;
      answered = a;
      same = cache_key-AreSame x.marshal x.digest t a.normal m a.manifest key keyed a.keyed;
      given = given;
    }

    -- Calls of `Execute` one after the other, from an empty cache, over a Redis that returns what was
    -- written and connectors that do not write to it: whatever expires and whatever fails, a result is
    -- an answer of the connector to a query with the same JSON text, manifest version and connector,
    -- itself or as it comes back from JSON, or else two texts have one digest.
    pub Runs-IsGenuine :
        (spec : QuerySpec) (refresh : Bool) (w w' : W) (r : QueryResult)
        → Runs w
        → execute x s spec refresh w ≡ (ok r, w')
        → (t : QuerySpec) × (m : DatasetManifest) × (validate s.manifests spec ≡ ok (t, m))
          × IsGenuine t m r
    Runs-IsGenuine spec refresh w w' r reached h =
        let (t, m, key, valid, keyed, source) = execute_source x s spec refresh w w' r h in
        (t, m, valid, by_source t m key valid keyed source)
      where
        by_source :
            (t : QuerySpec) (m : DatasetManifest) (key : String)
            → validate s.manifests spec ≡ ok (t, m)
            → cache_key x.marshal x.digest t m.version m.connector ≡ ok key
            → Source x s t m key refresh w r w'
            → IsGenuine t m r
        by_source t m key valid keyed (from_cache payload found fresh on got read is left) =
            let (answer, encoded, a) = Runs-IsFilled w reached key payload got in
            genuine t m key r answer keyed a (inr (payload, found, encoded, read, is))
        by_source t m key valid keyed (from_flight shared left) =
            genuine t m key r r keyed (honest.shares key w r shared) (inl refl)
        by_source t m key valid keyed (from_database c v found ran left) =
            genuine t m key r r keyed
              (record {
                asked = spec;
                normal = t;
                manifest = m;
                connector = c;
                before = w;
                after = v;
                valid = valid;
                keyed = keyed;
                found = found;
                reached = reached;
                ran = ran;
              })
              (inl refl)
