-- ===== src/Postgres/Compile/Injection.antt =====
-- The texts that `Compile` returns for queries that differ in their values.
use flooks.Common.{
  ℕ, ◌-◌, String, ◌≡◌, refl, sym, ap, ◌∙◌, Bool, List, [], ◌∷◌, ◌++◌, map, Result, ok, >>=-eq-ok,
  length, ◌&&◌, ◌==◌, if◌then◌else◌,
}
use flooks.Common.Text.{◌+++◌, itoa, join}
use flooks.Domain.Manifest.{DatasetManifest}
use flooks.Common.Int.{ℤ}
use flooks.Postgres.Identifier.{identifier}
use flooks.Domain.Spec.{QuerySpec, Filter, TimeRange}
use flooks.Postgres.Compile.{
  Printer, Arg, Clauses, CompileError, text, filter_loop, compile, group_dimension,
  select_dimension, sort_text, number, is_nonempty, select_metrics, with_error, bad_source,
}
use flooks.Postgres.Compile.Alike.{push-IsAlike, AreVariants, filter_loop-AreAlike}

module _ (p : Printer) (m : DatasetManifest) where
  is_nonempty-AreVariants :
      (fs gs : List Filter) → AreVariants fs gs → is_nonempty fs ≡ is_nonempty gs
  is_nonempty-AreVariants [] [] s = refl
  is_nonempty-AreVariants (f ∷ fs) (g ∷ gs) s = refl
  is_nonempty-AreVariants [] (g ∷ gs) s = absurd s
  is_nonempty-AreVariants (f ∷ fs) [] s = absurd s

  -- The text at a source, at the selected metrics, at the predicates and at a number of arguments.
  abbrev text_at : QuerySpec → Bool → String → List String → List String → ℕ → String
  text_at spec filtered source measures predicates n =
      let from =
        if m.source.kind == "table_function" then source +++ "($1::date, $2::date)" else source in
      let groups = map (group_dimension p m) spec.dimensions in
      join "\n" (
        ("SELECT " +++ join ", " (map (select_dimension p m) spec.dimensions ++ measures))
          ∷ ("FROM " +++ from)
          ∷ []
        ++ (if filtered then ("WHERE " +++ join " AND " predicates) ∷ [] else [])
        ++ (if is_nonempty groups && is_nonempty spec.metrics
            then ("GROUP BY " +++ join ", " groups) ∷ []
            else [])
        ++ (if is_nonempty spec.sort
            then ("ORDER BY " +++ join ", " (map (sort_text p m) spec.sort)) ∷ []
            else [])
        ++ ("LIMIT $" +++ itoa (n - 1) +++ " OFFSET $" +++ itoa n) ∷ [])

  ok_text :
      (t t' : String) (a a' : List Arg)
      → ◌≡◌ {A = Result CompileError (String × List Arg)} (ok (t, a)) (ok (t', a'))
      → t ≡ t'
  ok_text t t' a a' h = cc

  compile_steps :
      (spec : QuerySpec) (t : String) (a : List Arg)
      → compile p m spec ≡ ok (t, a)
      → (source : String) × (measures : List String) × (c : Clauses) × (with_error bad_source
            (identifier p.sanitize m.source.identifier)
          ≡ ok source)
        × (select_metrics p m spec.metrics ≡ ok measures)
        × (filter_loop p m spec.filters (record {
          args = text spec.time_range.start ∷ text spec.time_range.end ∷ [];
          predicates = [];
        })
            ≡ ok c)
        × (text_at spec
              (is_nonempty spec.filters)
              source
              measures
              c.predicates
              (length (c.args ++ number spec.limit ∷ number spec.offset ∷ []))
            ≡ t)
  unfolding compile
  compile_steps spec t a h =
      let (source, hs, rest) =
        >>=-eq-ok (with_error bad_source (identifier p.sanitize m.source.identifier)) _ h in
      let (measures, hm, more) = >>=-eq-ok (select_metrics p m spec.metrics) _ rest in
      let (c, hc, done) = >>=-eq-ok (filter_loop p m spec.filters _) _ more in
      (source, measures, c, hs, hm, hc, ok_text _ t _ a done)

  -- Two queries that differ only in the values of their filters, but not in whether an `isNull` asks
  -- for null, in their dates, limit and offset, compile to the same text, if both compile.
  pub text-compile :
      (spec : QuerySpec) (range : TimeRange) (filters : List Filter) (limit offset : ℤ)
      (t t' : String) (a a' : List Arg)
      → AreVariants spec.filters filters
      → compile p m spec ≡ ok (t, a)
      → compile p m
          (record spec { time_range = range; filters = filters; limit = limit; offset = offset })
        ≡ ok (t', a')
      → t ≡ t'
  text-compile spec range filters limit offset t t' a a' s h h' =
      let (source, measures, c, hs, hm, hc, done) = compile_steps spec t a h in
      let other = record spec {
        time_range = range;
        filters = filters;
        limit = limit;
        offset = offset;
      } in
      let (source', measures', c', hs', hm', hc', done') = compile_steps other t' a' h' in
      let same =
        filter_loop-AreAlike p m spec.filters filters _ _ s
          (record { numbers = refl; texts = refl }) c c' hc hc' in
      let sources : source ≡ source' = cc (hs, hs') in
      let measured : measures ≡ measures' = cc (hm, hm') in
      let sizes : length (c.args ++ number spec.limit ∷ number spec.offset ∷ [])
          ≡ length (c'.args ++ number limit ∷ number offset ∷ []) =
        (push-IsAlike c c' (number spec.limit ∷ number spec.offset ∷ [])
          (number limit ∷ number offset ∷ []) (λ n. "") same refl).numbers in
      sym done
      ∙ ap
          (λ b.
            text_at spec b source measures c.predicates
              (length (c.args ++ number spec.limit ∷ number spec.offset ∷ [])))
          (is_nonempty-AreVariants spec.filters filters s)
      ∙ ap
          (λ x.
            text_at spec (is_nonempty filters) x measures c.predicates
              (length (c.args ++ number spec.limit ∷ number spec.offset ∷ [])))
          sources
      ∙ ap
          (λ x.
            text_at spec (is_nonempty filters) source' x c.predicates
              (length (c.args ++ number spec.limit ∷ number spec.offset ∷ [])))
          measured
      ∙ ap
          (λ x.
            text_at spec (is_nonempty filters) source' measures' x
              (length (c.args ++ number spec.limit ∷ number spec.offset ∷ [])))
          same.texts
      ∙ ap (text_at spec (is_nonempty filters) source' measures' c'.predicates) sizes
      ∙ done'
