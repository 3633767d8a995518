-- ===== src/Http/Wire.antt =====
-- internal/httpapi/server.go: requests, responses, and the helpers that read and write them.
use Prim.Native.Char.{code}
use flooks.Common.{
  ℕ, ◌+◌, ◌-◌, ◌*◌, ◌^◌, String, Bool, true, false, ◌||◌, not, Option, none, some, List, [], ◌∷◌,
  Result, ok, err, leb, nat_eq, ◌==◌, if◌then◌else◌,
}
use flooks.Common.Int.{ℤ, pos, negsuc, ltb_ℤ}
use flooks.Common.Text.{codes, is_digit, ◌+++◌, itoa}
use mathlib.Core.List.{reverse}
use flooks.Domain.Manifest.{DatasetManifest}
use flooks.Domain.Spec.{QuerySpec, QueryResult}
use flooks.Assets.Store.{Asset, Revision}

-- `assetWrite`
pub record AssetWrite : Type 0 where
  pub slug : String
  pub title : String
  pub summary : String
  pub document : String

-- The parts of a request that the handlers read: the parameters of its path, which are empty where
-- the route has none, the header If-Match, the parameter `refresh`, and the body.
pub record Request : Type 0 where
  pub kind : String
  pub id : String
  pub revision : String
  pub key : String
  pub if_match : String
  pub refresh : String
  pub body : String

-- What is encoded as JSON, or streamed. `problem` holds the title and the detail; `services` the states of the
-- metadata database, of Redis and of the analytics data source.
pub data Body : Type 0 where
  no_body : Body
  problem_body : String → String → Body
  asset : Asset → Body
  assets : List Asset → Body
  revisions : List Revision → Body
  valid : QuerySpec → String → Body
  result : QueryResult → Body
  datasets : List DatasetManifest → Body
  dataset : DatasetManifest → Body
  state : String → Body
  services : String → String → String → Body
  stream : List String → Body

-- `etag` is the header ETag, if it is set.
pub record Response : Type 0 where
  pub status : ℕ
  pub etag : Option String
  pub body : Body

-- `writeJSON`
abbrev pub write_json : ℕ → Body → Response
write_json status body = record { status = status; etag = none; body = body }

-- `problem`
abbrev pub problem : ℕ → String → String → Response
problem status title detail = write_json status (problem_body title detail)

-- `w.Header().Set("ETag", fmt.Sprintf(`"%d"`, revision))` before `writeJSON`
unfoldable pub etag_text : ℕ → String
etag_text revision = "\"" +++ itoa revision +++ "\""

abbrev pub write_asset_json : ℕ → Asset → Response
write_asset_json status item = record {
  status = status;
  etag = some (etag_text item.latest_revision);
  body = asset item;
}

-- `strconv.ParseUint`: a number below 2^64, a longer one, or another text.
pub data Digits : Type 0 where
  digits : ℕ → Digits
  overflow not_a_number : Digits

unfoldable pub scan_digits : ℕ → List ℕ → Digits
scan_digits acc [] = digits acc
scan_digits acc (c ∷ s) =
    let n = acc * 10 + (c - 48) in
    let more = scan_digits n s in
    if is_digit c then (if leb (2 ^ 64) n then overflow else more) else not_a_number

abbrev pub some_digits : List ℕ → Digits
some_digits [] = not_a_number
some_digits (c ∷ s) = scan_digits 0 (c ∷ s)

-- The value and the success of `strconv.Atoi`: out of range the value is the nearest `int`, and a
-- text that is no number has the value 0.
abbrev pub signed : Bool → Digits → ℤ × Bool
signed minus not_a_number = (pos 0, false)
signed false overflow = (pos (2 ^ 63 - 1), false)
signed true overflow = (negsuc (2 ^ 63 - 1), false)
signed false (digits n) = if leb (2 ^ 63) n then (pos (2 ^ 63 - 1), false) else (pos n, true)
signed true (digits n) =
    if leb n 0
    then (pos 0, true)
    else if leb n (2 ^ 63)
    then (negsuc (n - 1), true)
    else (negsuc (2 ^ 63 - 1), false)

unfoldable pub atoi : List ℕ → ℤ × Bool
unfolding scan_digits
atoi [] = (pos 0, false)
atoi (c ∷ s) =
    if nat_eq c b'-'
    then signed true (some_digits s)
    else if nat_eq c b'+'
    then signed false (some_digits s)
    else signed false (some_digits (c ∷ s))

-- `strings.Trim(s, "\"")`
unfoldable pub drop_quotes : List ℕ → List ℕ
drop_quotes [] = []
drop_quotes (c ∷ s) = if nat_eq c b'"' then drop_quotes s else c ∷ s

unfoldable pub trim_quotes : List ℕ → List ℕ
unfolding drop_quotes
trim_quotes s = reverse (drop_quotes (reverse (drop_quotes s)))

-- `etag`: the revision that the client saw, or the response 428.
unfoldable pub etag : Request → Result Response ℤ
unfolding trim_quotes atoi
etag r =
    let (revision, read) = atoi (trim_quotes (codes r.if_match)) in
    if not read || ltb_ℤ revision (pos 1)
    then err (problem 428 "If-Match required" "현재 revision ETag를 제출하세요")
    else ok revision

-- `singularKind`: `strings.TrimSuffix(kind, "s")`
unfoldable pub singular_kind : String → String
singular_kind String.[] = ""
singular_kind (String.◌∷◌ c String.[]) = if nat_eq (code c) b's' then "" else String.◌∷◌ c String.[]
singular_kind (String.◌∷◌ c (String.◌∷◌ d s)) = String.◌∷◌ c (singular_kind (String.◌∷◌ d s))

-- What the handlers call to read their input: `uuid.Parse`, `json.Decoder.Decode` of a body of at
-- most 2 MiB with its unknown fields refused, and `json.Unmarshal` of a document's apiVersion and
-- kind.
pub record Readers : Type 0 where
  pub uuid : String → Option ℕ
  pub asset_write : String → Result String AssetWrite
  pub query_spec : String → Result String QuerySpec
  pub header : String → Option (String × String)

-- `assetID`
abbrev pub found_id : Option ℕ → Result Response ℕ
found_id none = err (problem 400 "invalid asset id" "")
found_id (some id) = ok id

-- `decode`
abbrev pub decoded : {A : Type 0} → Result String A → Result Response A
decoded (ok a) = ok a
decoded (err e) = err (problem 400 "invalid JSON" e)

-- `validDocument`
abbrev pub expected_kind : String → String
expected_kind kind = if kind == "dashboard" then "Dashboard" else "Chart"

unfoldable pub valid_document : String → Option (String × String) → Result Response (Unit {0})
valid_document kind none =
    err (problem 422 "invalid document" "apiVersion must be flooks.io/v1alpha1")
valid_document kind (some (version, document_kind)) =
    if version == "flooks.io/v1alpha1"
    then (if document_kind == expected_kind kind
        then ok tt
        else err (problem 422 "invalid document" ("kind must be " +++ expected_kind kind)))
    else err (problem 422 "invalid document" "apiVersion must be flooks.io/v1alpha1")
