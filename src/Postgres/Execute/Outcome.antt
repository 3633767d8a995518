-- ===== src/Postgres/Execute/Outcome.antt =====
-- What `Connector.Execute` returns.
use flooks.Common.{
  ℕ, String, ◌≡◌, ◌≢◌, refl, ap, Option, none, some, List, [], ◌∷◌, ◌++◌, Result, Result-cases, inl,
  inr, ok, err, ◌>>=◌, length, All, arith,
}
use flooks.Common.Int.{ℤ}
use flooks.Common.Dict.{insert}
use flooks.Domain.Manifest.{DatasetManifest}
use flooks.Domain.Value.{Value}
use flooks.Domain.Spec.{QuerySpec, QueryResult}
use flooks.Postgres.Compile.{Printer, Arg, CompileError, compile}
use flooks.Postgres.Execute.{
  Field, Rows, Database, ConnectorError, panicked, fill_row, read_rows, after_rows, collect,
  queried, compiled, waited, execute, normalize, answered,
}
use flooks.Postgres.Execute.Reading.{IsAnswer, collect-IsAnswer}

module _ {W E : Type 0} (db : Database W E) (p : Printer) where
  -- The result answers the compiled query, which ran once there was a slot.
  pub record IsExecuted (seconds : ℤ) (m : DatasetManifest) (spec : QuerySpec) (w w' : W)
      (r : QueryResult) : Type 0 where
    pub sql : String
    pub args : List Arg
    pub rows : Rows E
    pub admitted : W
    pub slot : db.wait seconds w ≡ (none, admitted)
    pub text : compile p m spec ≡ ok (sql, args)
    pub ran : db.query seconds sql args admitted ≡ (ok rows, w')
    pub answer : IsAnswer db rows r

  queried_ok :
      (start : W) (out : Result E (Rows E) × W) (r : QueryResult) (w' : W)
      → queried db start out ≡ (ok r, w')
      → (rows : Rows E) × (out ≡ (ok rows, w')) × IsAnswer db rows r
  queried_ok start (err e, v) r w' h = absurd (ground arith)
  queried_ok start (ok rows, v) r w' h = (
    rows,
    ap (λ (u : W). (ok rows, u)) (ap (λ (x : Result (ConnectorError E) QueryResult × W). x.1) h),
    collect-IsAnswer db (db.duration start v) rows r
        (ap (λ (x : Result (ConnectorError E) QueryResult × W). x.0) h),
  )

  -- `Execute` returns a result only for a query that compiled and that ran, in a slot, to its last
  -- row without an error: with a column for each field of the rows, in order; with a row for each of
  -- them, in order, that holds under each name the value of the last field so called, its times and
  -- byte strings as texts; and with their number.
  pub execute-IsExecuted :
      (seconds : ℤ) (m : DatasetManifest) (spec : QuerySpec) (w w' : W) (r : QueryResult)
      → execute db p seconds m spec w ≡ (ok r, w')
      → IsExecuted seconds m spec w w' r
  unfolding execute
  execute-IsExecuted seconds m spec w w' r h = admit (db.wait seconds w) refl h
    where
      admit :
          (x : Option E × W)
          → db.wait seconds w ≡ x
          → waited db p seconds m spec x ≡ (ok r, w')
          → IsExecuted seconds m spec w w' r
      admit (some e, v) q k = absurd (ground arith)
      admit (none, v) q k = elim (Result-cases (compile p m spec)) [
        | inr (e, he) ↦ absurd (uncompiled_ok e (rw he at k))
        | inl ((sql, args), hc) ↦
            let (rows, ran, answer) =
              queried_ok v (db.query seconds sql args v) r w' (rw hc at k) in
            record {
              sql = sql;
              args = args;
              rows = rows;
              admitted = v;
              slot = q;
              text = hc;
              ran = ran;
              answer = answer;
            }
      ]
        where
          uncompiled_ok : (e : CompileError) → compiled db p seconds (err e) v ≡ (ok r, w') → ⊥
          uncompiled_ok e k = ground arith

  -- One value for each field, as pgx's documentation says of `Values`.
  abbrev pub HasValues : Rows E → Type 0
  HasValues rows =
      All
        (λ (x : Result E (List Value)).
          (values : List Value) → x ≡ ok values → length values ≡ length rows.fields)
        rows.values

  fill_row_total :
      (fs : List Field) (vs : List Value) (row : List (String × Value))
      → length vs ≡ length fs
      → (out : List (String × Value)) × (fill_row db fs vs row ≡ ok out)
  unfolding fill_row
  fill_row_total fs [] row h = (row, refl)
  fill_row_total [] (v ∷ vs) row h = absurd (omega arith)
  fill_row_total (f ∷ fs) (v ∷ vs) row h =
      fill_row_total fs vs (insert f.name (normalize db v) row) (omega arith)

  read_rows-ne-panicked :
      (fields : List Field) (values : List (Result E (List Value)))
      (before : List (List (String × Value)))
      → All
          (λ (x : Result E (List Value)). (vs : List Value) → x ≡ ok vs → length vs ≡ length fields)
          values
      → read_rows db fields values before ≢ err panicked
  unfolding read_rows
  read_rows-ne-panicked fields [] before h = λ k. cc
  read_rows-ne-panicked fields (err e ∷ rest) before h = λ k. cc
  read_rows-ne-panicked fields (ok vs ∷ rest) before (one, h) =
      let (row, e) = fill_row_total fields vs [] (one vs refl) in
      rw e (read_rows-ne-panicked fields rest (before ++ row ∷ []) h)

  collect-ne-panicked :
      (ms : ℕ) (rows : Rows E) → HasValues rows → collect db ms rows ≢ err panicked
  unfolding collect
  collect-ne-panicked ms rows h =
      go (read_rows db rows.fields rows.values [])
        (read_rows-ne-panicked rows.fields rows.values [] h)
    where
      ended :
          (found : List (List (String × Value))) (x : Result (ConnectorError E) (Unit {0}))
          → x ≢ err panicked
          → (do done ← x; ok (answered db rows.fields found ms)) ≢ err panicked
      ended found (ok done) n = λ k. cc
      ended found (err e) n = λ k. n (cc)

      answers : (o : Option E) → after_rows db o ≢ err panicked
      answers none = λ k. cc
      answers (some e) = λ k. cc

      go :
          (x : Result (ConnectorError E) (List (List (String × Value))))
          → x ≢ err panicked
          → (do found ← x; done ← after_rows db rows.failure; ok (answered db rows.fields found ms))
            ≢ err panicked
      go (ok found) n = ended found (after_rows db rows.failure) (answers rows.failure)
      go (err e) n = λ k. n (cc)

  -- If the database returns one value for each field of a row, `Execute` never indexes out of range.
  execute_total :
      (seconds : ℤ) (m : DatasetManifest) (spec : QuerySpec) (w : W)
      → ((sql : String) (args : List Arg) (u v : W) (rows : Rows E)
          → db.query seconds sql args u ≡ (ok rows, v)
          → HasValues rows)
      → (execute db p seconds m spec w).0 ≢ err panicked
  unfolding execute
  execute_total seconds m spec w good = admit (db.wait seconds w)
    where
      run :
          (sql : String) (args : List Arg) (v : W) (x : Result E (Rows E) × W)
          → db.query seconds sql args v ≡ x
          → (queried db v x).0 ≢ err panicked
      run sql args v (err e, u) q = λ k. cc
      run sql args v (ok rows, u) q =
          collect-ne-panicked (db.duration v u) rows (good sql args v u rows q)

      compile_first :
          (v : W) (x : Result CompileError (String × List Arg))
          → (compiled db p seconds x v).0 ≢ err panicked
      compile_first v (err e) = λ k. cc
      compile_first v (ok (sql, args)) = run sql args v (db.query seconds sql args v) refl

      admit : (x : Option E × W) → (waited db p seconds m spec x).0 ≢ err panicked
      admit (some e, v) = λ k. cc
      admit (none, v) = compile_first v (compile p m spec)
