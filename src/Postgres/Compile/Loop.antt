-- ===== src/Postgres/Compile/Loop.antt =====
-- What the loop of `Compile` over the filters adds, beside the conditions that the filters mean.
use mathlib.Core.List.{append_assoc, append-nil, map-append}
use flooks.Common.{
  ℕ, ◌+◌, ◌-◌, String, ◌≡◌, refl, sym, ap, ◌∙◌, Bool, true, false, Bool-cases, inl, inr, Option,
  none, some, List, [], ◌∷◌, ◌++◌, map, Result, ok, err, ◌>>=◌, length, length-append, arith, ◌==◌,
}
use flooks.Common.Text.{itoa, ◌+++◌}
use flooks.Domain.Manifest.{DatasetManifest, dimension}
use flooks.Domain.Value.{Value, as_array, as_bool}
use flooks.Domain.Spec.{Filter}
use flooks.Postgres.Compile.{
  Printer, Arg, text, any, texts, CompileError, Clauses, filter_eq, filter_in, filter_contains,
  filter_between, filter_null, filter_step, filter_loop, quote, get_or, no_dimension, push,
}
use flooks.Postgres.Compile.Tree.{
  Predicate, equals, any_of, like, between, null, not_null, print_predicate, meant_in,
  meant_between, meant_null, meant_filter, meant_filters,
}
use flooks.Postgres.Compile.Numbers.{
  values, numbered, values_all, number_all, values_all-append, number_all-append,
}

-- The loop's variables after some conditions.
unfoldable pub advance : Clauses → List (Predicate Arg) → Clauses
advance c qs = record {
  args = c.args ++ values_all qs;
  predicates = c.predicates ++ map print_predicate (number_all (length c.args) qs);
}

advance-append :
    (c : Clauses) (qs rs : List (Predicate Arg)) → advance (advance c qs) rs ≡ advance c (qs ++ rs)
unfolding advance
advance-append c qs rs =
    rw (values_all-append, number_all-append, map-append, length-append, append_assoc, append_assoc)

advance-one :
    (c : Clauses) (q : Predicate Arg)
    → advance c (q ∷ []) ≡ record {
      args = c.args ++ values q;
      predicates = c.predicates ++ print_predicate (numbered (length c.args) q) ∷ [];
    }
unfolding advance values_all number_all
advance-one c q = rw append-nil

advance-none : (c : Clauses) → advance c [] ≡ c
unfolding advance values_all number_all
advance-none c = rw (append-nil, append-nil)

push-advance :
    (c : Clauses) (q : Predicate Arg) (predicate : ℕ → String)
    → ((k : ℕ) → predicate (k + length (values q)) ≡ print_predicate (numbered k q))
    → push c (values q) predicate ≡ advance c (q ∷ [])
push-advance c q predicate h = rw (advance-one c q, length-append, h)

-- The same for a step that may fail.
abbrev pub advances :
    Clauses → Result CompileError (List (Predicate Arg)) → Result CompileError Clauses
advances c r = do qs ← r; ok (advance c qs)

module _ (p : Printer) (m : DatasetManifest) where
  -- Each case of the switch advances by the condition that it means.
  filter_eq-advance :
      (column : String) (v : Value) (c : Clauses)
      → filter_eq p m column v c ≡ advance c (equals column (any v) ∷ [])
  unfolding filter_eq values numbered print_predicate
  filter_eq-advance column v c =
      push-advance c (equals column (any v)) (λ n. column +++ " = $" +++ itoa n) (λ k. refl)

  filter_in-advance :
      (column field : String) (o : Option (List Value)) (c : Clauses)
      → filter_in p m column field o c ≡ advances c (meant_in p m column field o)
  unfolding filter_in meant_in values numbered print_predicate
  filter_in-advance column field none c = refl
  filter_in-advance column field (some []) c = refl
  filter_in-advance column field (some (v ∷ vs)) c = ap ok (
      push-advance c (any_of column (texts (map p.sprint (v ∷ vs))))
        (λ n. column +++ " = ANY($" +++ itoa n +++ "::text[])") (λ k. refl))

  filter_contains-advance :
      (column : String) (v : Value) (c : Clauses)
      → filter_contains p m column v c
        ≡ advance c (like column (text ("%" +++ p.sprint v +++ "%")) ∷ [])
  unfolding filter_contains values numbered print_predicate
  filter_contains-advance column v c =
      push-advance c (like column (text ("%" +++ p.sprint v +++ "%")))
        (λ n. column +++ " ILIKE $" +++ itoa n) (λ k. refl)

  filter_between-advance :
      (column field : String) (o : Option (List Value)) (c : Clauses)
      → filter_between p m column field o c ≡ advances c (meant_between p m column field o)
  unfolding filter_between meant_between values numbered print_predicate
  filter_between-advance column field (some (low ∷ high ∷ [])) c = ap ok (
      push-advance c (between column (any low) (any high))
        (λ n. column +++ " BETWEEN $" +++ itoa (n - 1) +++ " AND $" +++ itoa n)
        (λ k. let back : k + 2 - 1 ≡ k + 1 = omega arith in rw back))
  filter_between-advance column field _ c = refl

  filter_null-advance :
      (column : String) (b : Bool) (c : Clauses)
      → filter_null p m column b c ≡ advance c (meant_null p m column b ∷ [])
  unfolding filter_null meant_null values numbered print_predicate
  filter_null-advance column true c =
      push-advance c (null column) (λ n. column +++ " IS NULL") (λ k. refl)
  filter_null-advance column false c =
      push-advance c (not_null column) (λ n. column +++ " IS NOT NULL") (λ k. refl)

  filter_step-advance :
      (f : Filter) (c : Clauses) → filter_step p m f c ≡ advances c (meant_filter p m f)
  unfolding filter_step meant_filter
  filter_step-advance f c =
      let column = quote p (get_or no_dimension (dimension m f.field)).column in
      elim (Bool-cases (f.op == "eq")) [
        | inl e ↦ rw e (ap ok (filter_eq-advance column f.value c))
        | inr e₁ ↦ rw e₁ (elim (Bool-cases (f.op == "in")) [
          | inl e ↦ rw e (filter_in-advance column f.field (as_array f.value) c)
          | inr e₂ ↦ rw e₂ (elim (Bool-cases (f.op == "contains")) [
            | inl e ↦ rw e (ap ok (filter_contains-advance column f.value c))
            | inr e₃ ↦ rw e₃ (elim (Bool-cases (f.op == "between")) [
              | inl e ↦ rw e (filter_between-advance column f.field (as_array f.value) c)
              | inr e₄ ↦ rw e₄ (elim (Bool-cases (f.op == "isNull")) [
                | inl e ↦ rw e (ap ok (filter_null-advance column (as_bool f.value) c))
                | inr e₅ ↦ rw e₅ (ap ok (sym (advance-none c)))
              ])
            ])
          ])
        ])
      ]

  pub filter_loop-advance :
      (fs : List Filter) (c : Clauses) → filter_loop p m fs c ≡ advances c (meant_filters p m fs)
  unfolding filter_loop meant_filters
  filter_loop-advance [] c = ap ok (sym (advance-none c))
  filter_loop-advance (f ∷ fs) c =
      rw (filter_step-advance f c) (onward (λ d. filter_loop-advance fs d) (meant_filter p m f))
    where
      joined :
          (qs : List (Predicate Arg)) (r : Result CompileError (List (Predicate Arg)))
          → advances (advance c qs) r ≡ advances c (do rs ← r; ok (qs ++ rs))
      joined qs (ok rs) = ap ok (advance-append c qs rs)
      joined qs (err e) = refl

      onward :
          ((d : Clauses) → filter_loop p m fs d ≡ advances d (meant_filters p m fs))
          → (r : Result CompileError (List (Predicate Arg)))
          → (do next ← advances c r; filter_loop p m fs next)
            ≡ advances c (do qs ← r; rs ← meant_filters p m fs; ok (qs ++ rs))
      onward ih (ok qs) = ih (advance c qs) ∙ joined qs (meant_filters p m fs)
      onward ih (err e) = refl
