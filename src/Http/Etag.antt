-- ===== src/Http/Etag.antt =====
-- The header ETag of a response, sent back as If-Match.
use mathlib.Core.List.{reverse, reverse_aux, append-nil}
use flooks.Common.{
  ℕ, ◌+◌, ◌-◌, ◌*◌, ◌^◌, ◌≤◌, ◌<◌, ◌≡◌, ◌≢◌, refl, sym, ap, ◌∙◌, true, false, List, [], ◌∷◌, ◌++◌,
  All, All-map, ok, nat_eq_iff, arith,
}
use flooks.Common.Int.{pos}
use flooks.Common.Text.{codes, itoa, ◌+++◌}
use flooks.Common.Text.Digits.{codes-append, IsDigit, itoa-IsDigit, scan-itoa}
use flooks.Http.Wire.{
  Request, digits, scan_digits, signed, atoi, drop_quotes, trim_quotes, etag, etag_text,
}

abbrev NotQuote : ℕ → Type 0
NotQuote c = c ≢ b'"'

reverse_aux-append : (xs ys zs : List ℕ) → reverse_aux xs (ys ++ zs) ≡ reverse_aux xs ys ++ zs
reverse_aux-append [] ys zs = refl
reverse_aux-append (x ∷ xs) ys zs = reverse_aux-append xs (x ∷ ys) zs

reverse_aux-reverse_aux : (xs ys : List ℕ) → reverse_aux (reverse_aux xs ys) [] ≡ reverse_aux ys xs
reverse_aux-reverse_aux [] ys = refl
reverse_aux-reverse_aux (x ∷ xs) ys = reverse_aux-reverse_aux xs (x ∷ ys)

All-reverse_aux :
    (xs ys : List ℕ) → All NotQuote xs → All NotQuote ys → All NotQuote (reverse_aux xs ys)
All-reverse_aux [] ys h k = k
All-reverse_aux (x ∷ xs) ys (p, h) k = All-reverse_aux xs (x ∷ ys) h (p, k)

reverse_aux-snoc : (xs ys : List ℕ) (c : ℕ) → reverse_aux (xs ++ c ∷ []) ys ≡ c ∷ reverse_aux xs ys
reverse_aux-snoc [] ys c = refl
reverse_aux-snoc (x ∷ xs) ys c = reverse_aux-snoc xs (x ∷ ys) c

drop_quotes_none : (xs : List ℕ) → All NotQuote xs → drop_quotes xs ≡ xs
unfolding drop_quotes
drop_quotes_none [] h = refl
drop_quotes_none (x ∷ xs) (p, h) = ground (arith, p, nat_eq_iff x b'"')

drop_quotes_head : (x : ℕ) (xs : List ℕ) → NotQuote x → drop_quotes (x ∷ xs) ≡ x ∷ xs
unfolding drop_quotes
drop_quotes_head x xs p = ground (arith, p, nat_eq_iff x b'"')

-- Quotes around a text that has none, nor is empty, are trimmed.
trim_quotes_quoted :
    (x : ℕ) (xs : List ℕ)
    → All NotQuote (x ∷ xs)
    → trim_quotes (b'"' ∷ ((x ∷ xs) ++ b'"' ∷ [])) ≡ x ∷ xs
unfolding trim_quotes
trim_quotes_quoted x xs h =
    let opened : drop_quotes (b'"' ∷ ((x ∷ xs) ++ b'"' ∷ [])) ≡ (x ∷ xs) ++ b'"' ∷ [] =
      unfold drop_quotes in drop_quotes_head x (xs ++ b'"' ∷ []) h.0 in
    let turned : reverse ((x ∷ xs) ++ b'"' ∷ []) ≡ b'"' ∷ reverse (x ∷ xs) =
      reverse_aux-snoc (x ∷ xs) [] b'"' in
    let closed : drop_quotes (b'"' ∷ reverse (x ∷ xs)) ≡ reverse (x ∷ xs) =
      unfold drop_quotes in
      drop_quotes_none (reverse (x ∷ xs)) (All-reverse_aux (x ∷ xs) [] h tt) in
    ap (λ ys. reverse (drop_quotes (reverse ys))) opened
    ∙ ap (λ ys. reverse (drop_quotes ys)) turned
    ∙ ap reverse closed
    ∙ reverse_aux-reverse_aux (x ∷ xs) []

-- The clauses of `scan_digits` at a digit that keeps the number within 64 bits.
scan_digits_digit :
    (acc d : ℕ) (rest : List ℕ)
    → d < 10
    → acc * 10 + d < 2 ^ 64
    → scan_digits acc ((48 + d) ∷ rest) ≡ scan_digits (acc * 10 + d) rest
unfolding scan_digits
scan_digits_digit acc d rest h b =
    let back : 48 + d - 48 ≡ d = omega arith in rw back (ground arith)

scan_digits-itoa : (n : ℕ) → n < 2 ^ 64 → scan_digits 0 (codes (itoa n)) ≡ digits n
unfolding scan_digits
scan_digits-itoa n b =
    ap (scan_digits 0) (sym (append-nil (codes (itoa n))))
    ∙ scan-itoa scan_digits (2 ^ 64) scan_digits_digit n [] b

-- `Atoi` of a text of digits.
atoi_digits : (c : ℕ) (s : List ℕ) → IsDigit c → atoi (c ∷ s) ≡ signed false (scan_digits 0 (c ∷ s))
unfolding atoi
atoi_digits c s h = ground (arith, nat_eq_iff c b'-', nat_eq_iff c b'+')

codes-etag_text : (n : ℕ) → codes (etag_text n) ≡ b'"' ∷ (codes (itoa n) ++ b'"' ∷ [])
unfolding etag_text
codes-etag_text n =
    codes-append "\"" (itoa n +++ "\"") ∙ ap (λ xs. b'"' ∷ xs) (codes-append (itoa n) "\"")

-- From the characters that `Itoa` wrote.
read_back :
    (n : ℕ) (xs : List ℕ)
    → 1 ≤ n
    → n < 2 ^ 63
    → All IsDigit xs
    → scan_digits 0 xs ≡ digits n
    → atoi (trim_quotes (b'"' ∷ (xs ++ b'"' ∷ []))) ≡ (pos n, true)
unfolding scan_digits
read_back n [] low high h e = absurd (ground arith)
read_back n (c ∷ s) low high h e =
    ap atoi (trim_quotes_quoted c s (All-map (λ x d q. omega (arith, d, q)) (c ∷ s) h))
    ∙ atoi_digits c s h.0
    ∙ ap (signed false) e
    ∙ ground arith

-- The ETag of a response that carries an asset, sent back as If-Match, is read as the revision of
-- that asset, for every revision from 1 below 2^63.
pub etag-etag_text :
    (r : Request) (n : ℕ) → r.if_match ≡ etag_text n → 1 ≤ n → n < 2 ^ 63 → etag r ≡ ok (pos n)
unfolding etag
etag-etag_text r n same low high =
    let read : atoi (trim_quotes (codes r.if_match)) ≡ (pos n, true) =
      ap (λ s. atoi (trim_quotes (codes s))) same
      ∙ ap (λ xs. atoi (trim_quotes xs)) (codes-etag_text n)
      ∙ read_back n (codes (itoa n)) low high (itoa-IsDigit n) (scan_digits-itoa n (omega arith)) in
    rw read (ground arith)
