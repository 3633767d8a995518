-- ===== src/Postgres/Execute/Reading.antt =====
-- The result that `Execute` makes of the rows that the database returns.
use flooks.Common.{
  ℕ, String, ◌≡◌, refl, sym, ◌∙◌, Option, none, some, List, [], ◌∷◌, ◌++◌, map, Result, ok, err,
  >>=-eq-ok, ok_inj, subst, length, All, arith, ◌==◌, if◌then◌else◌,
}
use mathlib.Core.List.{append_assoc, append-nil}
use flooks.Common.Dict.{lookup, insert, lookup-insert}
use flooks.Domain.Value.{Value, null, bool, float, int, str, arr, obj, time, bytes}
use flooks.Domain.Spec.{QueryResult}
use flooks.Postgres.Execute.{
  Field, Rows, Database, normalize, fill_row, read_rows, after_rows, collect, column_of,
}

abbrev pub or_else {ℓ} : {A : Type ℓ} → Option A → Option A → Option A
or_else (some a) o = some a
or_else none o = o

or_else-none {ℓ} : {A : Type ℓ} (o : Option A) → or_else o none ≡ o
or_else-none (some a) = refl
or_else-none none = refl

-- The value under a name: that of the last field so called.
unfoldable pub value_of : String → List Field → List Value → Option Value
value_of name [] vs = none
value_of name (f ∷ fs) [] = none
value_of name (f ∷ fs) (v ∷ vs) =
    or_else (value_of name fs vs) (if f.name == name then some v else none)

-- What JSON can carry as it is: neither a time nor raw bytes.
abbrev pub IsPlain : Value → Type 0
IsPlain (time t) = ⊥
IsPlain (bytes b) = ⊥
IsPlain v = Unit

module _ {W E : Type 0} (db : Database W E) where
  normalize-IsPlain : (v : Value) → IsPlain (normalize db v)
  unfolding normalize
  normalize-IsPlain (time t) = tt
  normalize-IsPlain (bytes b) = tt
  normalize-IsPlain null = tt
  normalize-IsPlain (bool b) = tt
  normalize-IsPlain (float n) = tt
  normalize-IsPlain (int n) = tt
  normalize-IsPlain (str s) = tt
  normalize-IsPlain (arr vs) = tt
  normalize-IsPlain (obj fs) = tt

  abbrev pub normalized : Option Value → Option Value
  normalized none = none
  normalized (some v) = some (normalize db v)

  lookup-fill_row :
      (name : String) (fs : List Field) (vs : List Value) (row out : List (String × Value))
      → fill_row db fs vs row ≡ ok out
      → lookup name out ≡ or_else (normalized (value_of name fs vs)) (lookup name row)
  unfolding fill_row value_of
  lookup-fill_row name [] [] row out h = ground arith
  lookup-fill_row name (f ∷ fs) [] row out h = ground arith
  lookup-fill_row name [] (v ∷ vs) row out h = absurd (ground arith)
  lookup-fill_row name (f ∷ fs) (v ∷ vs) row out h = ground (
    arith,
    lookup-fill_row name fs vs (insert f.name (normalize db v) row) out,
    lookup-insert f.name name (normalize db v) row,
  )

  -- A row of the result, beside the fields and the values that it was made of.
  abbrev pub IsRow : List Field → List Value → List (String × Value) → Type 0
  IsRow fields values row =
      (name : String) → lookup name row ≡ normalized (value_of name fields values)

  -- The rows were read without an error, one for each row of the result.
  abbrev pub AreRows :
      List Field → List (Result E (List Value)) → List (List (String × Value)) → Type 0
  AreRows fields [] [] = Unit
  AreRows fields (ok values ∷ rest) (row ∷ rows) =
      IsRow fields values row × AreRows fields rest rows
  AreRows fields _ _ = ⊥

  read_rows-AreRows :
      (fields : List Field) (values : List (Result E (List Value)))
      (before out : List (List (String × Value)))
      → read_rows db fields values before ≡ ok out
      → (rows : List (List (String × Value))) × (out ≡ before ++ rows) × AreRows fields values rows
  unfolding read_rows lookup
  read_rows-AreRows fields [] before out h = ([], ground (arith, append-nil before), tt)
  read_rows-AreRows fields (err e ∷ rest) before out h = absurd (ground arith)
  read_rows-AreRows fields (ok values ∷ rest) before out h =
      let (row, filled, more) = >>=-eq-ok (fill_row db fields values []) _ h in
      let (rows, same, are) = read_rows-AreRows fields rest (before ++ row ∷ []) out more in
      (
        row ∷ rows,
        same ∙ append_assoc before (row ∷ []) rows,
        (
          λ name.
              lookup-fill_row name fields values [] row filled
              ∙ or_else-none (normalized (value_of name fields values)),
          are,
        ),
      )

  -- The values of a row of the result.
  abbrev pub ArePlain : List (String × Value) → Type 0
  ArePlain row = (name : String) (v : Value) → lookup name row ≡ some v → IsPlain v

  normalized-IsPlain : (o : Option Value) (v : Value) → normalized o ≡ some v → IsPlain v
  normalized-IsPlain none v h = absurd (ground arith)
  normalized-IsPlain (some u) v h =
      let same : normalize db u ≡ v = cc in subst IsPlain same (normalize-IsPlain u)

  AreRows-ArePlain :
      (fields : List Field) (values : List (Result E (List Value)))
      (rows : List (List (String × Value)))
      → AreRows fields values rows
      → All ArePlain rows
  AreRows-ArePlain fields [] [] h = tt
  AreRows-ArePlain fields (ok values ∷ rest) (row ∷ rows) (is, are) = (
    λ name v e. normalized-IsPlain (value_of name fields values) v (sym (is name) ∙ e),
    AreRows-ArePlain fields rest rows are,
  )
  AreRows-ArePlain fields [] (row ∷ rows) h = absurd h
  AreRows-ArePlain fields (ok values ∷ rest) [] h = absurd h
  AreRows-ArePlain fields (err e ∷ rest) rows h = absurd (no_rows e rest rows h)
    where
      no_rows :
          (e : E) (rest : List (Result E (List Value))) (rows : List (List (String × Value)))
          → AreRows fields (err e ∷ rest) rows
          → ⊥
      no_rows e rest [] k = k
      no_rows e rest (row ∷ rows) k = k

  after_rows_ok : (o : Option E) → after_rows db o ≡ ok tt → o ≡ none
  after_rows_ok none h = refl
  after_rows_ok (some e) h = absurd (ground arith)

  -- What `Execute` returned for the rows of a query.
  pub record IsAnswer (rows : Rows E) (r : QueryResult) : Type 0 where
    pub columns : r.columns ≡ map column_of rows.fields
    pub values : AreRows rows.fields rows.values r.rows
    pub counted : r.row_count ≡ length r.rows
    pub complete : rows.failure ≡ none
    pub plain : All ArePlain r.rows

  pub collect-IsAnswer :
      (ms : ℕ) (rows : Rows E) (r : QueryResult) → collect db ms rows ≡ ok r → IsAnswer rows r
  unfolding collect
  collect-IsAnswer ms rows r h =
      let (found, read, more) = >>=-eq-ok (read_rows db rows.fields rows.values []) _ h in
      let (done, ended, last) = >>=-eq-ok (after_rows db rows.failure) _ more in
      let (kept, same, are) = read_rows-AreRows rows.fields rows.values [] found read in
      subst (IsAnswer rows) (ok_inj _ r last) (record {
        columns = refl;
        values = subst (AreRows rows.fields rows.values) (sym same) are;
        counted = refl;
        plain =
            AreRows-ArePlain rows.fields rows.values found
              (subst (AreRows rows.fields rows.values) (sym same) are);
        complete = after_rows_ok rows.failure ended;
      })
