-- ===== src/Common/Text/Split.antt =====
-- Splitting a text at dots, and joining texts by dots.
use Prim.Native.Char.{Char, code}
use text.Mathlib.TextLemmas.{nil-append, cons-append}
use text.Mathlib.TextEquality.{Char-path}
use flooks.Common.{
  String, ◌≡◌, refl, sym, ap, ◌∙◌, ◌≢◌, List, [], ◌∷◌, All, nat_eq, nat_eq_iff, Bool-cases, inl,
  inr,
}
use flooks.Common.Text.{codes, ◌+++◌, join, join_from, split, split_at}

-- No part of the text is a dot.
abbrev pub HasNoDot : String → Type 0
HasNoDot s = All (λ c. c ≢ b'.') (codes s)

dot : (c : Char) (s : String) → code c ≡ b'.' → (String.◌∷◌ c s) ≡ "." +++ s
dot c s h =
    ap (λ d. String.◌∷◌ d s) (Char-path c "." h)
    ∙ sym (cons-append "." "" s ∙ ap (λ t. String.◌∷◌ "." t) (nil-append s))

join_from-cons :
    (c : Char) (s : String) (rest : List String)
    → join_from "." (String.◌∷◌ c s) rest ≡ String.◌∷◌ c (join_from "." s rest)
unfolding join_from
join_from-cons c s [] = refl
join_from-cons c s (t ∷ rest) = cons-append c s _

join_from-split_at : (s : String) → join_from "." (split_at b'.' s).0 (split_at b'.' s).1 ≡ s
unfolding split_at join_from
join_from-split_at String.[] = refl
join_from-split_at (String.◌∷◌ c s) = elim (Bool-cases (nat_eq (code c) b'.')) [
  | inl here ↦ rw here (
      nil-append _
      ∙ ap (λ t. "." +++ t) (join_from-split_at s)
      ∙ sym (dot c s ((nat_eq_iff _ _).0 here)))
  | inr other ↦ rw other (join_from-cons c _ _ ∙ ap (λ t. String.◌∷◌ c t) (join_from-split_at s))
]

-- Joining the parts that a text was split into gives the text back.
pub join-split : (s : String) → join "." (split b'.' s) ≡ s
unfolding join split
join-split s = join_from-split_at s

split_at-cons :
    (c : Char) (s : String)
    → code c ≢ b'.'
    → split_at b'.' (String.◌∷◌ c s) ≡ (String.◌∷◌ c (split_at b'.' s).0, (split_at b'.' s).1)
unfolding split_at
split_at-cons c s h = elim (Bool-cases (nat_eq (code c) b'.')) [
  | inl here ↦ absurd (h ((nat_eq_iff _ _).0 here))
  | inr other ↦ rw other
]

split_at-dot : (s : String) → split_at b'.' ("." +++ s) ≡ ("", split b'.' s)
unfolding split_at split
split_at-dot s = rw (cons-append "." "" s, nil-append s)

split_at-append : (s t : String) → HasNoDot s → split_at b'.' (s +++ "." +++ t) ≡ (s, split b'.' t)
split_at-append String.[] t h = ap (split_at b'.') (nil-append _) ∙ split_at-dot t
split_at-append (String.◌∷◌ c s) t (p, h) =
    rw (cons-append c s ("." +++ t), split_at-cons c _ p, split_at-append s t h)

split_at_of_HasNoDot : (s : String) → HasNoDot s → split_at b'.' s ≡ (s, [])
unfolding split_at
split_at_of_HasNoDot String.[] h = refl
split_at_of_HasNoDot (String.◌∷◌ c s) (p, h) =
    split_at-cons c s p ∙ ap (λ r. (String.◌∷◌ c r.0, r.1)) (split_at_of_HasNoDot s h)

split-parts :
    (s t : String) (rest : List String) → split_at b'.' s ≡ (t, rest) → split b'.' s ≡ t ∷ rest
unfolding split
split-parts s t rest e = rw e

split_at-join_from :
    (s : String) (rest : List String)
    → HasNoDot s
    → All HasNoDot rest
    → split_at b'.' (join_from "." s rest) ≡ (s, rest)
unfolding join_from
split_at-join_from s [] h k = split_at_of_HasNoDot s h
split_at-join_from s (t ∷ rest) h (q, k) =
    split_at-append s (join_from "." t rest) h
    ∙ ap (λ r. (s, r)) (split-parts (join_from "." t rest) t rest (split_at-join_from t rest q k))

-- Splitting a join gives the parts back, if none holds a dot.
pub split-join :
    (s : String) (rest : List String)
    → All HasNoDot (s ∷ rest)
    → split b'.' (join "." (s ∷ rest)) ≡ s ∷ rest
unfolding split join
split-join s rest (h, k) = rw (split_at-join_from s rest h k)
