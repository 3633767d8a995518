-- ===== src/Postgres/Compile/Alike.antt =====
-- What the loop of `Compile` over the filters makes of filters that differ in their values only.
use flooks.Common.{
  ℕ, ◌-◌, String, ◌≡◌, refl, sym, subst, Bool, true, false, Option, none, some, List, [], ◌∷◌, ◌++◌,
  map, eq_iff, Result, ok, >>=-eq-ok, length, length-append, arith, ◌==◌, if◌then◌else◌,
}
use flooks.Common.Text.{◌+++◌, itoa}
use flooks.Domain.Manifest.{DatasetManifest, dimension}
use flooks.Domain.Value.{Value, as_array, as_bool}
use flooks.Domain.Spec.{Filter}
use flooks.Postgres.Compile.{
  Printer, Arg, Clauses, CompileError, push, texts, text, any, filter_eq, filter_in,
  filter_contains, filter_between, filter_null, filter_step, filter_loop, quote, get_or,
  no_dimension,
}

-- As many arguments, and the same predicates.
pub record IsAlike (c d : Clauses) : Type 0 where
  pub numbers : length c.args ≡ length d.args
  pub texts : c.predicates ≡ d.predicates

pub push-IsAlike :
    (c d : Clauses) (xs ys : List Arg) (f : ℕ → String)
    → IsAlike c d
    → length xs ≡ length ys
    → IsAlike (push c xs f) (push d ys f)
push-IsAlike c d xs ys f h e = record { numbers = same; texts = cc (h.texts, same) }
  where
    same : length (c.args ++ xs) ≡ length (d.args ++ ys)
    same = ground (arith, length-append c.args xs, length-append d.args ys, h.numbers, e)

IsAlike-ok :
    (c d v w : Clauses)
    → ◌≡◌ {A = Result CompileError Clauses} (ok c) (ok v)
    → ◌≡◌ {A = Result CompileError Clauses} (ok d) (ok w)
    → IsAlike c d
    → IsAlike v w
IsAlike-ok c d v w j k h =
    let left : c ≡ v = cc in
    let right : d ≡ w = cc in
    record {
      numbers = ground (arith, h.numbers, left, right);
      texts = ground (arith, h.texts, left, right);
    }

-- If both succeed, the results are alike.
abbrev pub AreAlike : Result CompileError Clauses → Result CompileError Clauses → Type 0
AreAlike r s = (v w : Clauses) → r ≡ ok v → s ≡ ok w → IsAlike v w

if-AreAlike :
    (b : Bool) (r s u v : Result CompileError Clauses)
    → AreAlike r s
    → AreAlike u v
    → AreAlike (if b then r else u) (if b then s else v)
if-AreAlike true r s u v h k = h
if-AreAlike false r s u v h k = k

if_true-AreAlike :
    (b : Bool) (r s u v : Result CompileError Clauses)
    → (b ≡ true → AreAlike r s)
    → AreAlike u v
    → AreAlike (if b then r else u) (if b then s else v)
if_true-AreAlike true r s u v h k = h refl
if_true-AreAlike false r s u v h k = k

-- Filters that differ in their values only, and, for `isNull`, not in whether they ask for null.
pub record IsVariant (f g : Filter) : Type 0 where
  pub field : f.field ≡ g.field
  pub op : f.op ≡ g.op
  pub null : f.op ≡ "isNull" → as_bool f.value ≡ as_bool g.value

-- The same filters but for their values.
abbrev pub AreVariants : List Filter → List Filter → Type 0
AreVariants [] [] = Unit
AreVariants (f ∷ fs) (g ∷ gs) = IsVariant f g × AreVariants fs gs
AreVariants _ _ = ⊥

module _ (p : Printer) (m : DatasetManifest) where
  filter_in-IsAlike :
      (column field : String) (o u : Option (List Value)) (c d v w : Clauses)
      → IsAlike c d
      → filter_in p m column field o c ≡ ok v
      → filter_in p m column field u d ≡ ok w
      → IsAlike v w
  unfolding filter_in
  filter_in-IsAlike column field (some (x ∷ xs)) (some (y ∷ ys)) c d v w h j k =
      IsAlike-ok _ _ v w j k (
        push-IsAlike c d (texts (map p.sprint (x ∷ xs)) ∷ []) (texts (map p.sprint (y ∷ ys)) ∷ [])
          (λ n. column +++ " = ANY($" +++ itoa n +++ "::text[])") h refl)
  filter_in-IsAlike column field none _ c d v w h j k = absurd (ground arith)
  filter_in-IsAlike column field (some []) _ c d v w h j k = absurd (ground arith)
  filter_in-IsAlike column field (some (x ∷ xs)) none c d v w h j k = absurd (ground arith)
  filter_in-IsAlike column field (some (x ∷ xs)) (some []) c d v w h j k = absurd (ground arith)

  filter_between-IsAlike :
      (column field : String) (o u : Option (List Value)) (c d v w : Clauses)
      → IsAlike c d
      → filter_between p m column field o c ≡ ok v
      → filter_between p m column field u d ≡ ok w
      → IsAlike v w
  unfolding filter_between
  filter_between-IsAlike column field (some (x ∷ y ∷ [])) (some (x' ∷ y' ∷ [])) c d v w h j k =
      IsAlike-ok _ _ v w j k (
        push-IsAlike c d (any x ∷ any y ∷ []) (any x' ∷ any y' ∷ [])
          (λ n. column +++ " BETWEEN $" +++ itoa (n - 1) +++ " AND $" +++ itoa n) h refl)
  filter_between-IsAlike column field _ _ c d v w h j k = absurd (ground arith)

  filter_null-IsAlike :
      (column : String) (b : Bool) (c d : Clauses)
      → IsAlike c d
      → IsAlike (filter_null p m column b c) (filter_null p m column b d)
  unfolding filter_null
  filter_null-IsAlike column true c d h = push-IsAlike c d [] [] (λ n. column +++ " IS NULL") h refl
  filter_null-IsAlike column false c d h =
      push-IsAlike c d [] [] (λ n. column +++ " IS NOT NULL") h refl

  step-AreAlike :
      (field op : String) (x y : Value) (c d : Clauses)
      → (op ≡ "isNull" → as_bool x ≡ as_bool y)
      → IsAlike c d
      → AreAlike
          (filter_step p m (record { field = field; op = op; value = x }) c)
          (filter_step p m (record { field = field; op = op; value = y }) d)
  unfolding filter_step filter_eq filter_contains
  step-AreAlike field op x y c d e h =
      if-AreAlike (op == "eq") _ _ _ _
        (λ v w j k.
          IsAlike-ok _ _ v w j k
            (push-IsAlike c d (any x ∷ []) (any y ∷ []) (λ n. column +++ " = $" +++ itoa n) h refl))
        (if-AreAlike (op == "in") _ _ _ _
          (λ v w j k. filter_in-IsAlike column field (as_array x) (as_array y) c d v w h j k)
          (if-AreAlike (op == "contains") _ _ _ _
            (λ v w j k. IsAlike-ok _ _ v w j k (
              push-IsAlike c d (text ("%" +++ p.sprint x +++ "%") ∷ [])
                (text ("%" +++ p.sprint y +++ "%") ∷ []) (λ n. column +++ " ILIKE $" +++ itoa n) h
                refl))
            (if-AreAlike (op == "between") _ _ _ _
              (λ v w j k.
                filter_between-IsAlike column field (as_array x) (as_array y) c d v w h j k)
              (if_true-AreAlike (op == "isNull") _ _ _ _
                (λ is v w j k. IsAlike-ok _ _ v w j k (
                  rw (sym (e ((eq_iff op "isNull").0 is)))
                    (filter_null-IsAlike column (as_bool x) c d h)))
                (λ v w j k. IsAlike-ok c d v w j k h)))))
    where
      column : String
      column = quote p (get_or no_dimension (dimension m field)).column

  filter_step-AreAlike :
      (f g : Filter) (c d : Clauses)
      → IsVariant f g
      → IsAlike c d
      → AreAlike (filter_step p m f c) (filter_step p m g d)
  filter_step-AreAlike f g c d s h =
      subst
        (λ (field : String).
          AreAlike (filter_step p m f c)
            (filter_step p m (record { field = field; op = g.op; value = g.value }) d))
        s.field
        (subst
          (λ (op : String).
            AreAlike (filter_step p m f c)
              (filter_step p m (record { field = f.field; op = op; value = g.value }) d))
          s.op (step-AreAlike f.field f.op f.value g.value c d s.null h))

  pub filter_loop-AreAlike :
      (fs gs : List Filter) (c d : Clauses)
      → AreVariants fs gs
      → IsAlike c d
      → AreAlike (filter_loop p m fs c) (filter_loop p m gs d)
  unfolding filter_loop
  filter_loop-AreAlike [] [] c d s h = λ v w j k. IsAlike-ok c d v w j k h
  filter_loop-AreAlike (f ∷ fs) (g ∷ gs) c d (s, ss) h = λ v w j k.
      let (v₁, one, more) = >>=-eq-ok (filter_step p m f c) _ j in
      let (w₁, one', more') = >>=-eq-ok (filter_step p m g d) _ k in
      filter_loop-AreAlike fs gs v₁ w₁ ss (filter_step-AreAlike f g c d s h v₁ w₁ one one') v w more
        more'
  filter_loop-AreAlike [] (g ∷ gs) c d s h = absurd s
  filter_loop-AreAlike (f ∷ fs) [] c d s h = absurd s
