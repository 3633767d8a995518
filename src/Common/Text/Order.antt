-- ===== src/Common/Text/Order.antt =====
-- The order of texts, as `strings.Compare` has it.
use Prim.Native.Char.{code}
use text.Mathlib.TextEquality.{Char-path}
use flooks.Common.{String, ◌≡◌, refl, ap, ◌∙◌, Bool, true, false, ◌||◌, ◌&&◌, ltb, nat_eq, arith}

-- `strings.Compare(s, t) < 0`, by code points: UTF-8 keeps their order.
unfoldable pub text_lt : String → String → Bool
text_lt String.[] String.[] = false
text_lt String.[] (String.◌∷◌ d t) = true
text_lt (String.◌∷◌ c s) String.[] = false
text_lt (String.◌∷◌ c s) (String.◌∷◌ d t) =
    let rest = text_lt s t in ltb (code c) (code d) || nat_eq (code c) (code d) && rest

pub text_lt_irrefl : (s : String) → text_lt s s ≡ false
unfolding text_lt
text_lt_irrefl String.[] = refl
text_lt_irrefl (String.◌∷◌ c s) = ground (arith, text_lt_irrefl s)

pub text_lt_trans : (s t u : String) → text_lt s t ≡ true → text_lt t u ≡ true → text_lt s u ≡ true
unfolding text_lt
text_lt_trans String.[] String.[] String.[] h k = h
text_lt_trans String.[] String.[] (String.◌∷◌ e u) h k = refl
text_lt_trans String.[] (String.◌∷◌ d t) String.[] h k = k
text_lt_trans String.[] (String.◌∷◌ d t) (String.◌∷◌ e u) h k = refl
text_lt_trans (String.◌∷◌ c s) String.[] u h k = absurd (ground arith)
text_lt_trans (String.◌∷◌ c s) (String.◌∷◌ d t) String.[] h k = k
text_lt_trans (String.◌∷◌ c s) (String.◌∷◌ d t) (String.◌∷◌ e u) h k =
    ground (arith, text_lt_trans s t u)

pub text_lt_connex : (s t : String) → text_lt s t ≡ false → text_lt t s ≡ false → s ≡ t
unfolding text_lt
text_lt_connex String.[] String.[] h k = refl
text_lt_connex String.[] (String.◌∷◌ d t) h k = cc
text_lt_connex (String.◌∷◌ c s) String.[] h k = cc
text_lt_connex (String.◌∷◌ c s) (String.◌∷◌ d t) h k =
    let heads : code c ≡ code d = ground arith in
    let tails : s ≡ t = ground (arith, text_lt_connex s t) in
    ap (λ e. String.◌∷◌ e s) (Char-path c d heads) ∙ ap (λ v. String.◌∷◌ d v) tails
