-- ===== src/Common/Text/Digits.antt =====
-- The digits that `strconv.Itoa` writes.
use Prim.Native.Char.{code}
use text.Mathlib.TextLemmas.{nil-append, cons-append}
use mathlib.Core.List.{append_assoc}
use flooks.Common.{
  ℕ, zero, suc, ◌+◌, ◌*◌, ◌/◌, ◌%◌, ◌≤◌, ◌<◌, String, ◌≡◌, refl, ap, ◌∙◌, List, [], ◌∷◌, ◌++◌, All,
  All-append, ltb, Bool-cases, inl, inr, arith,
}
use flooks.Common.Text.{codes, ◌+++◌, itoa, itoa_from, digit_text}

pub codes-append : (s t : String) → codes (s +++ t) ≡ codes s ++ codes t
codes-append String.[] t = ap codes (nil-append t)
codes-append (String.◌∷◌ c s) t =
    ap codes (cons-append c s t) ∙ ap (λ xs. code c ∷ xs) (codes-append s t)

pub codes-digit_text : (d : ℕ) → d < 10 → codes (digit_text d) ≡ (48 + d) ∷ []
codes-digit_text zero h = refl
codes-digit_text (suc zero) h = refl
codes-digit_text (suc (suc zero)) h = refl
codes-digit_text (suc (suc (suc zero))) h = refl
codes-digit_text (suc (suc (suc (suc zero)))) h = refl
codes-digit_text (suc (suc (suc (suc (suc zero))))) h = refl
codes-digit_text (suc (suc (suc (suc (suc (suc zero)))))) h = refl
codes-digit_text (suc (suc (suc (suc (suc (suc (suc zero))))))) h = refl
codes-digit_text (suc (suc (suc (suc (suc (suc (suc (suc zero)))))))) h = refl
codes-digit_text (suc (suc (suc (suc (suc (suc (suc (suc (suc zero))))))))) h = refl
codes-digit_text (suc (suc (suc (suc (suc (suc (suc (suc (suc (suc d)))))))))) h =
    absurd (omega arith)

-- The character of a digit.
abbrev pub IsDigit : ℕ → Type 0
IsDigit c = (48 ≤ c) × (c ≤ 57)

pub itoa_from-IsDigit : (fuel n : ℕ) → All IsDigit (codes (itoa_from fuel n))
unfolding itoa_from
itoa_from-IsDigit zero n = tt
itoa_from-IsDigit (suc fuel) n = elim (Bool-cases (ltb n 10)) [
  | inl one ↦
      let d : n < 10 = ground arith in
      rw (one, codes-digit_text n d) ((omega arith, omega arith), tt)
  | inr more ↦
      rw (more, codes-append, codes-digit_text (n % 10) (omega arith))
        (All-append IsDigit (codes (itoa_from fuel (n / 10))) _ (itoa_from-IsDigit fuel (n / 10))
          ((omega arith, omega arith), tt))
]

pub itoa-IsDigit : (n : ℕ) → All IsDigit (codes (itoa n))
unfolding itoa
itoa-IsDigit n = itoa_from-IsDigit (suc n) n

-- Reading a number's digits, one by one, below a bound on what is read: n has at most as many digits
-- as the fuel that `itoa` gives.
module _ {R : Type 0} (scan : ℕ → List ℕ → R) (bound : ℕ)
    (digit : (acc d : ℕ) (rest : List ℕ)
      → d < 10
      → acc * 10 + d < bound
      → scan acc ((48 + d) ∷ rest) ≡ scan (acc * 10 + d) rest) where
  scan-itoa_from :
      (fuel n : ℕ) (rest : List ℕ)
      → n < fuel
      → n < bound
      → scan 0 (codes (itoa_from fuel n) ++ rest) ≡ scan n rest
  unfolding itoa_from
  scan-itoa_from zero n rest f b = absurd (omega arith)
  scan-itoa_from (suc fuel) n rest f b = elim (Bool-cases (ltb n 10)) [
    | inl one ↦
        let d : n < 10 = ground arith in
        rw (one, codes-digit_text n d)
          (digit 0 n rest d (omega arith) ∙ ap (λ k. scan k rest) (omega arith))
    | inr more ↦
        let high : 10 ≤ n = ground arith in
        rw (more, codes-append, codes-digit_text (n % 10) (omega arith), append_assoc)
          (scan-itoa_from fuel (n / 10) ((48 + n % 10) ∷ rest) (omega arith) (omega arith)
            ∙ digit (n / 10) (n % 10) rest (omega arith) (omega arith)
            ∙ ap (λ k. scan k rest) (omega arith))
  ]

  pub scan-itoa :
      (n : ℕ) (rest : List ℕ) → n < bound → scan 0 (codes (itoa n) ++ rest) ≡ scan n rest
  unfolding itoa
  scan-itoa n rest b = scan-itoa_from (suc n) n rest (omega arith) b
