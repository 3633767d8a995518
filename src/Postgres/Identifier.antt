-- ===== src/Postgres/Identifier.antt =====
-- internal/connector/postgres/postgres.go: `identifier` and `ValidateManifest`.
pub mod Laws
use flooks.Common.{
  ℕ, zero, suc, String, Bool, true, ◌&&◌, ◌||◌, not, List, Result, ok, err, ◌>>=◌, ◌>>◌, for_each,
  length, leb, ltb, nat_eq, ◌==◌, if◌then◌else◌,
}
use flooks.Common.Text.{codes, is_digit, split}
use flooks.Domain.Manifest.{DatasetManifest}

pub data IdentifierError : Type 0 where
  invalid_qualified : String → IdentifierError
  invalid_identifier : String → IdentifierError

abbrev pub is_identifier_char : ℕ → Bool
is_identifier_char c = nat_eq c b'_' || leb b'a' c && leb c b'z' || is_digit c

-- The loops over the parts of a value and over the characters of a part.
unfoldable pub check_char : String → ℕ → Result IdentifierError (Unit {0})
check_char value c = if is_identifier_char c then ok tt else err (invalid_identifier value)

unfoldable pub check_part : String → String → Result IdentifierError (Unit {0})
check_part value part =
    if part == "" then err (invalid_qualified value) else for_each (check_char value) (codes part)

pub data ManifestError : Type 0 where
  unsupported_kind : String → ManifestError
  bad_identifier : IdentifierError → ManifestError

-- `sanitize` is `pgx.Identifier.Sanitize`.
module _ (sanitize : List String → String) where
  unfoldable pub identifier : String → Result IdentifierError String
  identifier value =
      let parts = split b'.' value in
      do
        if ltb (length parts) 1 || ltb 2 (length parts)
            then err (invalid_qualified value)
            else ok tt
        for_each (check_part value) parts
        ok (sanitize parts)

  abbrev checked_source : Result IdentifierError String → Result ManifestError (Unit {0})
  checked_source (ok _) = ok tt
  checked_source (err e) = err (bad_identifier e)

  -- `Connector.ValidateManifest`
  unfoldable pub validate_manifest : DatasetManifest → Result ManifestError (Unit {0})
  validate_manifest m =
      if not (m.source.kind == "table_function") && not (m.source.kind == "table")
      then err (unsupported_kind m.source.kind)
      else checked_source (identifier m.source.identifier)
