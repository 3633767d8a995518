-- ===== src/Common/Text.antt =====
-- Texts: what the source uses of `strings` and `strconv`, over code points. All that the source
-- looks for is ASCII, where a code point and a byte are one.
pub mod Split
pub mod Order
pub mod Digits
use Prim.Native.Char.{Char, code}
use Prim.Native.String
use Prim.Native.String.{[], ◌∷◌}
use mathlib.Core.List
use flooks.Common.{
  ℕ, zero, suc, ◌+◌, ◌/◌, ◌%◌, String, Bool, ◌&&◌, List, leb, ltb, nat_eq, if◌then◌else◌,
}
use flooks.Common.Int.{ℤ, pos, negsuc}

abbrev pub codes : String → List ℕ
codes [] = List.[]
codes (c ∷ s) = List.◌∷◌ (code c) (codes s)

abbrev pub is_digit : ℕ → Bool
is_digit c = leb b'0' c && leb c b'9'

infixr 66 ◌+++◌
-- Go's `+` on texts.
abbrev pub ◌+++◌ : String → String → String
s +++ t = String.◌++◌ s t

-- `strings.Join`, behind its first text.
unfoldable pub join_from : String → String → List String → String
join_from sep s List.[] = s
join_from sep s (List.◌∷◌ t rest) = s +++ sep +++ join_from sep t rest

unfoldable pub join : String → List String → String
unfolding join_from
join sep List.[] = ""
join sep (List.◌∷◌ s rest) = join_from sep s rest

-- `strings.Split` at a separator of one ASCII character: the first part, and the others.
unfoldable pub split_at : ℕ → String → String × List String
split_at sep [] = ("", List.[])
split_at sep (c ∷ s) =
    let (first, others) = split_at sep s in
    if nat_eq (code c) sep then ("", List.◌∷◌ first others) else (c ∷ first, others)

unfoldable pub split : ℕ → String → List String
unfolding split_at
split sep s = let (first, others) = split_at sep s in List.◌∷◌ first others

abbrev pub digit_text : ℕ → String
digit_text d =
    if nat_eq d 0
    then "0"
    else if nat_eq d 1
    then "1"
    else if nat_eq d 2
    then "2"
    else if nat_eq d 3
    then "3"
    else if nat_eq d 4
    then "4"
    else if nat_eq d 5
    then "5"
    else if nat_eq d 6
    then "6"
    else if nat_eq d 7
    then "7"
    else if nat_eq d 8
    then "8"
    else "9"

-- `strconv.Itoa` of a number that is not negative. Its digits are at most as many as itself.
pub itoa_from : ℕ → ℕ → String
itoa_from zero n = ""
itoa_from (suc fuel) n =
    let more = itoa_from fuel (n / 10) in
    if ltb n 10 then digit_text n else more +++ digit_text (n % 10)

unfoldable pub itoa : ℕ → String
unfolding itoa_from
itoa n = itoa_from (suc n) n

-- `strconv.Itoa`, also of a negative number.
unfoldable pub itoa_ℤ : ℤ → String
unfolding itoa
itoa_ℤ (pos n) = itoa n
itoa_ℤ (negsuc n) = "-" +++ itoa (suc n)
