-- ===== src/Postgres/Compile/Numbers.antt =====
-- Conditions that are numbered as they are met, and read back with their arguments.
use mathlib.Core.List.{append_assoc}
use mathlib.Core.Path.{subst₂}
use flooks.Common.{
  ℕ, suc, ◌+◌, ◌≡◌, refl, sym, ap, ◌∙◌, List, [], ◌∷◌, ◌++◌, length, length-append, get_elem?,
  arith,
}
use flooks.Postgres.Compile.{Arg}
use flooks.Postgres.Compile.Tree.{
  Predicate, equals, any_of, like, between, null, not_null, argument, Reads, ReadsAll,
}

-- The arguments of a condition, in order.
unfoldable pub values : Predicate Arg → List Arg
values (equals c a) = a ∷ []
values (any_of c a) = a ∷ []
values (like c a) = a ∷ []
values (between c a b) = a ∷ b ∷ []
values (null c) = []
values (not_null c) = []

-- The condition with placeholders, after k arguments.
unfoldable pub numbered : ℕ → Predicate Arg → Predicate ℕ
numbered k (equals c a) = equals c (k + 1)
numbered k (any_of c a) = any_of c (k + 1)
numbered k (like c a) = like c (k + 1)
numbered k (between c a b) = between c (k + 1) (k + 2)
numbered k (null c) = null c
numbered k (not_null c) = not_null c

unfoldable pub values_all : List (Predicate Arg) → List Arg
values_all [] = []
values_all (q ∷ qs) = values q ++ values_all qs

unfoldable pub number_all : ℕ → List (Predicate Arg) → List (Predicate ℕ)
number_all k [] = []
number_all k (q ∷ qs) = numbered k q ∷ number_all (k + length (values q)) qs

pub values_all-append :
    (qs rs : List (Predicate Arg)) → values_all (qs ++ rs) ≡ values_all qs ++ values_all rs
unfolding values_all
values_all-append [] rs = refl
values_all-append (q ∷ qs) rs =
    ap (λ l. values q ++ l) (values_all-append qs rs) ∙ sym (append_assoc (values q) _ _)

pub number_all-append :
    (k : ℕ) (qs rs : List (Predicate Arg))
    → number_all k (qs ++ rs) ≡ number_all k qs ++ number_all (k + length (values_all qs)) rs
unfolding number_all values_all
number_all-append k [] rs = ap (λ n. number_all n rs) (omega arith)
number_all-append k (q ∷ qs) rs =
    ap (λ l. numbered k q ∷ l)
      (number_all-append (k + length (values q)) qs rs
        ∙ ap (λ n. number_all (k + length (values q)) qs ++ number_all n rs)
            (omega (arith, length-append (values q) (values_all qs))))

get_elem?-append :
    (xs ys : List Arg) (n : ℕ) → get_elem? (xs ++ ys) (length xs + n) ≡ get_elem? ys n
get_elem?-append [] ys n = ap (get_elem? ys) (omega arith)
get_elem?-append (x ∷ xs) ys n =
    let up : suc (length xs) + n ≡ suc (length xs + n) = omega arith in
    ap (get_elem? (x ∷ (xs ++ ys))) up ∙ get_elem?-append xs ys n

-- The arguments behind `xs` in `xs ++ ys`, counted from 1.
pub argument-append :
    (xs ys : List Arg) (k n : ℕ) → k ≡ length xs + suc n → argument (xs ++ ys) k ≡ get_elem? ys n
argument-append xs ys k n e =
    let up : k ≡ suc (length xs + n) = omega arith in
    ap (argument (xs ++ ys)) up ∙ get_elem?-append xs ys n

Reads-numbered :
    (pre post : List Arg) (q : Predicate Arg)
    → Reads (pre ++ (values q ++ post)) (numbered (length pre) q) q
unfolding numbered values
Reads-numbered pre post (equals c a) = (refl, argument-append pre _ _ 0 (omega arith))
Reads-numbered pre post (any_of c a) = (refl, argument-append pre _ _ 0 (omega arith))
Reads-numbered pre post (like c a) = (refl, argument-append pre _ _ 0 (omega arith))
Reads-numbered pre post (between c a b) =
    (refl, argument-append pre _ _ 0 (omega arith), argument-append pre _ _ 1 (omega arith))
Reads-numbered pre post (null c) = refl
Reads-numbered pre post (not_null c) = refl

-- Conditions numbered after `pre` are read back from arguments that begin with `pre` and their own.
pub ReadsAll-number_all :
    (pre post : List Arg) (qs : List (Predicate Arg))
    → ReadsAll (pre ++ (values_all qs ++ post)) (number_all (length pre) qs) qs
unfolding number_all values_all
ReadsAll-number_all pre post [] = tt
ReadsAll-number_all pre post (q ∷ qs) =
    let all = values_all qs in
    (
      rw append_assoc (Reads-numbered pre (all ++ post) q),
      subst₂ (λ args k. ReadsAll args (number_all k qs) qs)
          (append_assoc pre (values q) (all ++ post)
            ∙ ap (λ l. pre ++ l) (sym (append_assoc (values q) all post)))
          (length-append pre (values q)) (ReadsAll-number_all (pre ++ values q) post qs),
    )
