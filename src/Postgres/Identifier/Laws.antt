-- ===== src/Postgres/Identifier/Laws.antt =====
-- What a source identifier may be.
use flooks.Common.{
  ℕ, String, ◌≡◌, sym, ap, ◌≢◌, ◌↔◌, ◌⊎◌, iff_trans, ◌≤◌, false, ◌||◌, List, [], ◌∷◌, Result, ok,
  err, for_each, for_each-All, ×-right, ◌∙◌, All, All-map, length, ltb, ◌==◌, eq_iff, arith,
  if◌then◌else◌,
}
use flooks.Common.Text.{codes, split, join}
use flooks.Common.Text.Split.{HasNoDot, join-split, split-join}
use flooks.Postgres.Identifier.{
  IdentifierError, invalid_qualified, check_char, check_part, identifier,
}

-- An underscore, a small letter or a digit.
abbrev pub IsNameChar : ℕ → Type 0
IsNameChar c = (c ≡ b'_') ⊎ (((b'a' ≤ c) × (c ≤ b'z')) ⊎ ((b'0' ≤ c) × (c ≤ b'9')))

abbrev pub IsName : String → Type 0
IsName part = (part ≢ "") × All IsNameChar (codes part)

-- The value is these names, joined by dots.
pub record IsQualified (value : String) (parts : List String) : Type 0 where
  pub joined : value ≡ join "." parts
  pub names : All IsName parts
  pub some_part : 1 ≤ length parts
  pub two_at_most : length parts ≤ 2

check_char_iff : (value : String) (c : ℕ) → (check_char value c ≡ ok tt) ↔ IsNameChar c
unfolding check_char
check_char_iff value c = ground arith

chars_iff :
    (value part : String)
    → (for_each (check_char value) (codes part) ≡ ok tt) ↔ All IsNameChar (codes part)
chars_iff value part = for_each-All (check_char value) (check_char_iff value) (codes part)

nonempty_iff :
    (value part : String) (r : Result IdentifierError (Unit {0}))
    → ((if part == "" then err (invalid_qualified value) else r) ≡ ok tt)
      ↔ ((part ≢ "") × (r ≡ ok tt))
nonempty_iff value part r = ground (arith, eq_iff part "")

check_part_iff : (value part : String) → (check_part value part ≡ ok tt) ↔ IsName part
unfolding check_part
check_part_iff value part = iff_trans (nonempty_iff value part _) (×-right (chars_iff value part))

-- A name holds no dot, so the parts of joined names are the names.
name-HasNoDot : (part : String) → IsName part → HasNoDot part
name-HasNoDot part v = All-map (λ c h. ground arith) (codes part) v.1

split-join_names :
    (parts : List String)
    → All IsName parts
    → 1 ≤ length parts
    → split b'.' (join "." parts) ≡ parts
split-join_names [] v h = absurd (omega arith)
split-join_names (p ∷ parts) (v, w) h =
    split-join p parts (name-HasNoDot p v, All-map name-HasNoDot parts w)

module _ (sanitize : List String → String) (value q : String) where
  identifier_steps : (identifier sanitize value ≡ ok q) ↔ (
      (ltb (length (split b'.' value)) 1 || ltb 2 (length (split b'.' value)) ≡ false)
      × (for_each (check_part value) (split b'.' value) ≡ ok tt)
      × (sanitize (split b'.' value) ≡ q))
  unfolding identifier
  identifier_steps = ground arith

  parts_iff :
      (parts : List String)
      → (ltb (length parts) 1 || ltb 2 (length parts) ≡ false)
        ↔ ((1 ≤ length parts) × (length parts ≤ 2))
  parts_iff parts = ground arith

  -- `identifier` accepts exactly one name, or two joined by a dot, each of small letters, digits and
  -- underscores and not empty; and it returns those names, sanitized.
  pub identifier_iff :
      (identifier sanitize value ≡ ok q)
      ↔ ((parts : List String) × IsQualified value parts × (q ≡ sanitize parts))
  identifier_iff = iff_trans identifier_steps (to, from)
    where
      names :
          (for_each (check_part value) (split b'.' value) ≡ ok tt) ↔ All IsName (split b'.' value)
      names = for_each-All (check_part value) (check_part_iff value) (split b'.' value)

      to :
          (ltb (length (split b'.' value)) 1 || ltb 2 (length (split b'.' value)) ≡ false)
            × (for_each (check_part value) (split b'.' value) ≡ ok tt)
            × (sanitize (split b'.' value) ≡ q)
          → (parts : List String) × IsQualified value parts × (q ≡ sanitize parts)
      to (n, c, e) =
          let (low, high) = (parts_iff (split b'.' value)).0 n in
          (
            split b'.' value,
            record {
              joined = sym (join-split value);
              names = names.0 c;
              some_part = low;
              two_at_most = high;
            },
            sym e,
          )

      from :
          (parts : List String) × IsQualified value parts × (q ≡ sanitize parts)
          → (ltb (length (split b'.' value)) 1 || ltb 2 (length (split b'.' value)) ≡ false)
            × (for_each (check_part value) (split b'.' value) ≡ ok tt)
            × (sanitize (split b'.' value) ≡ q)
      from (parts, v, e) =
          let same : split b'.' value ≡ parts =
            ap (split b'.') v.joined ∙ split-join_names parts v.names v.some_part in
          (
            (parts_iff (split b'.' value)).1 (rw same (v.some_part, v.two_at_most)),
            names.1 (rw same v.names),
            rw same (sym e),
          )
