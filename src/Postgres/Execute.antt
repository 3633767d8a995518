-- ===== src/Postgres/Execute.antt =====
-- internal/connector/postgres/postgres.go: `Connector.Execute`, `normalize` and `typeName`.
pub mod Reading
pub mod Outcome
pub mod Slots
use flooks.Common.{
  ℕ, suc, ◌+◌, ◌-◌, String, Bool, true, false, ◌||◌, Option, none, some, List, [], ◌∷◌, ◌++◌, map,
  Result, ok, err, ◌>>=◌, length, ltb, nat_eq, if◌then◌else◌,
}
use flooks.Common.Int.{ℤ}
use flooks.Common.Dict.{insert}
use flooks.Domain.Manifest.{DatasetManifest}
use flooks.Domain.Value.{Value, time, bytes, str}
use flooks.Domain.Spec.{QuerySpec, QueryResult, Column}
use flooks.Postgres.Identifier.{ManifestError, validate_manifest}
use flooks.Postgres.Compile.{Printer, Arg, CompileError, compile, with_error}
use flooks.Query.Service.{Connector}

-- `pgconn.FieldDescription`, as far as `Execute` reads it.
pub record Field : Type 0 where
  pub name : String
  pub oid : ℕ

-- `pgx.Rows`: what each call of `Values` returns, up to the last row, and `Err` behind it.
pub record Rows (E : Type 0) : Type 0 where
  pub fields : List Field
  pub values : List (Result E (List Value))
  pub failure : Option E

-- `panicked` is an index out of range.
pub data ConnectorError (E : Type 0) : Type 0 where
  unusable : ManifestError → ConnectorError E
  cancelled : E → ConnectorError E
  uncompiled : CompileError → ConnectorError E
  database : E → ConnectorError E
  panicked : ConnectorError E

-- The pool, the clock, and Go's formats. `wait` is what ends the wait for a slot: `none` is the slot,
-- an error that of the context. Both calls run within a timeout, in seconds.
pub record Database (W : Type 0) (E : Type 0) : Type 0 where
  pub wait : ℤ → W → Option E × W
  pub query : ℤ → String → List Arg → W → Result E (Rows E) × W
  pub duration : W → W → ℕ
  pub rfc3339 : ℤ → String
  pub text : List ℕ → String

-- `typeName`
unfoldable pub type_name : ℕ → String
type_name oid =
    if nat_eq oid 20 || nat_eq oid 21 || nat_eq oid 23
    then "integer"
    else if nat_eq oid 700 || nat_eq oid 701 || nat_eq oid 1700
    then "number"
    else if nat_eq oid 1082
    then "date"
    else if nat_eq oid 1114 || nat_eq oid 1184
    then "datetime"
    else "string"

abbrev pub column_of : Field → Column
column_of f = record { name = f.name; type = type_name f.oid }

module _ {W E : Type 0} (db : Database W E) where
  -- `normalize`
  unfoldable pub normalize : Value → Value
  normalize (time t) = str (db.rfc3339 t)
  normalize (bytes b) = str (db.text b)
  normalize v = v

  -- The loop over the values of a row. It writes to a map.
  unfoldable pub fill_row :
      List Field
      → List Value
      → List (String × Value)
      → Result (ConnectorError E) (List (String × Value))
  unfolding normalize
  fill_row fields [] row = ok row
  fill_row [] (v ∷ vs) row = err panicked
  fill_row (f ∷ fs) (v ∷ vs) row = fill_row fs vs (insert f.name (normalize v) row)

  -- The loop over the rows.
  unfoldable pub read_rows :
      List Field
      → List (Result E (List Value))
      → List (List (String × Value))
      → Result (ConnectorError E) (List (List (String × Value)))
  unfolding fill_row
  read_rows fields [] rows = ok rows
  read_rows fields (err e ∷ rest) rows = err (database e)
  read_rows fields (ok values ∷ rest) rows = do
    row ← fill_row fields values []
    read_rows fields rest (rows ++ row ∷ [])

  abbrev pub after_rows : Option E → Result (ConnectorError E) (Unit {0})
  after_rows none = ok tt
  after_rows (some e) = err (database e)

  abbrev pub answered : List Field → List (List (String × Value)) → ℕ → QueryResult
  answered fields found ms = record {
    columns = map column_of fields;
    rows = found;
    row_count = length found;
    duration_ms = ms;
    cached = false;
  }

  -- `Execute` from the rows on.
  unfoldable pub collect : ℕ → Rows E → Result (ConnectorError E) QueryResult
  unfolding read_rows
  collect ms rows = do
    found ← read_rows rows.fields rows.values []
    ended ← after_rows rows.failure
    ok (answered rows.fields found ms)

  abbrev pub queried : W → Result E (Rows E) × W → Result (ConnectorError E) QueryResult × W
  queried start (err e, w) = (err (database e), w)
  queried start (ok rows, w) = (collect (db.duration start w) rows, w)

  module _ (p : Printer) where
    abbrev pub compiled :
        ℤ → Result CompileError (String × List Arg) → W → Result (ConnectorError E) QueryResult × W
    compiled seconds (err e) w = (err (uncompiled e), w)
    compiled seconds (ok (sql, args)) w = queried w (db.query seconds sql args w)

    abbrev pub waited :
        ℤ → DatasetManifest → QuerySpec → Option E × W → Result (ConnectorError E) QueryResult × W
    waited seconds m spec (some e, w) = (err (cancelled e), w)
    waited seconds m spec (none, w) = compiled seconds (compile p m spec) w

    -- `Connector.Execute`
    unfoldable pub execute :
        ℤ → DatasetManifest → QuerySpec → W → Result (ConnectorError E) QueryResult × W
    unfolding collect
    execute seconds m spec w = waited seconds m spec (db.wait seconds w)

    -- `New`: the connector, as the query service calls it.
    abbrev pub connector : String → Connector W (ConnectorError E)
    connector key = record {
      kind = key;
      validate_manifest = λ m. with_error unusable (validate_manifest p.sanitize m);
      execute = execute;
    }
