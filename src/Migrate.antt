-- ===== src/Migrate.antt =====
-- cmd/migrate/main.go: the program that brings the metadata database up to date. The driver and goose
-- are parameters.
use flooks.Common.{
  String, ◌≡◌, ◌≢◌, refl, ◌↔◌, false, Bool-cases, inl, inr, Option, none, some, List, ◌==◌, eq_iff,
  arith, if◌then◌else◌,
}
use flooks.Startup.{get_env}

-- How `main` ends: as it returns, or by `log.Fatal`.
pub data Outcome (E : Type 0) : Type 0 where
  returned unset : Outcome E
  fatal : E → Outcome E

-- `sql.Open`, `PingContext` and `goose.Up`, over the world of the database; `none` is a success.
pub record Tools (W E : Type 0) : Type 0 where
  pub open_db : String → Option E
  pub ping : String → W → Option E × W
  pub up : String → String → W → Option E × W

module _ {W E : Type 0} (tools : Tools W E) where
  abbrev pub migrated : Option E × W → Outcome E × W
  migrated (none, w) = (returned, w)
  migrated (some e, w) = (fatal e, w)

  abbrev pub pinged : String → Option E × W → Outcome E × W
  pinged dsn (none, w) = migrated (tools.up dsn "db/migrations" w)
  pinged dsn (some e, w) = (fatal e, w)

  abbrev pub with_db : String → Option E → W → Outcome E × W
  with_db dsn none w = pinged dsn (tools.ping dsn w)
  with_db dsn (some e) w = (fatal e, w)

  -- `main`
  unfoldable pub main : List (String × String) → W → Outcome E × W
  main vars w =
      let dsn = get_env vars "METADATA_DATABASE_URL" in
      if dsn == "" then (unset, w) else with_db dsn (tools.open_db dsn) w

  -- The migrations were given the database that was opened and had answered a ping, and went up.
  abbrev pub IsMigrated : String → W → W → Type 0
  IsMigrated dsn w u =
      (dsn ≢ "")
      × (tools.open_db dsn ≡ none)
      × ((tools.ping dsn w).0 ≡ none)
      × (tools.up dsn "db/migrations" (tools.ping dsn w).1 ≡ (none, u))

  migrated_iff : (o : Option E × W) (u : W) → (migrated o ≡ (returned, u)) ↔ (o ≡ (none, u))
  migrated_iff (none, w) u = (λ h. cc, λ h. cc)
  migrated_iff (some e, w) u = (λ h. cc, λ h. cc)

  pinged_iff :
      (dsn : String) (o : Option E × W) (u : W)
      → (pinged dsn o ≡ (returned, u))
        ↔ ((o.0 ≡ none) × (tools.up dsn "db/migrations" o.1 ≡ (none, u)))
  pinged_iff dsn (none, v) u = (λ h. (refl, (migrated_iff _ u).0 h), λ h. (migrated_iff _ u).1 h.1)
  pinged_iff dsn (some e, v) u = (λ h. cc, λ h. cc)

  with_db_iff :
      (dsn : String) (o : Option E) (w u : W)
      → (with_db dsn o w ≡ (returned, u)) ↔ (
          (o ≡ none)
          × ((tools.ping dsn w).0 ≡ none)
          × (tools.up dsn "db/migrations" (tools.ping dsn w).1 ≡ (none, u)))
  with_db_iff dsn none w u = (
    λ h. let (a, b) = (pinged_iff dsn (tools.ping dsn w) u).0 h in (refl, a, b),
    λ (o, a, b). (pinged_iff dsn (tools.ping dsn w) u).1 (a, b),
  )
  with_db_iff dsn (some e) w u = (λ h. cc, λ h. cc)

  -- The program returns exactly when its variable is set, the database opens and answers a ping, and
  -- then the migrations go up on it; and the database is left as they leave it.
  main-returned_iff :
      (vars : List (String × String)) (w u : W)
      → (main vars w ≡ (returned, u)) ↔ IsMigrated (get_env vars "METADATA_DATABASE_URL") w u
  unfolding main
  main-returned_iff vars w u =
      let dsn = get_env vars "METADATA_DATABASE_URL" in
      elim (Bool-cases (dsn == "")) [
        | inl unset_dsn ↦ rw unset_dsn (λ h. cc, λ h. absurd (h.0 ((eq_iff dsn "").0 unset_dsn)))
        | inr there ↦ rw there (
          λ h.
              let (o, a, b) = (with_db_iff dsn (tools.open_db dsn) w u).0 h in
              (differ dsn there, o, a, b),
          λ (n, o, a, b). (with_db_iff dsn (tools.open_db dsn) w u).1 (o, a, b),
        )
      ]
    where
      differ : (dsn : String) → (dsn == "") ≡ false → dsn ≢ ""
      differ dsn there h = ground (arith, eq_iff dsn "")
