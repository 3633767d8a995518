-- ===== src/Assets/Versions.antt =====
-- What internal/assets/store.go promises: an asset is a stack of versions that only grows, and a
-- writer names the height of the stack that it saw. No table, no transaction and no failure is here.
pub mod View
pub mod Reads
pub mod Commits
pub mod Refines
pub mod Progress
use flooks.Common.{
  ℕ, String, Bool, true, false, Option, none, some, List, [], ◌∷◌, length, nat_eq, if◌then◌else◌,
}
use flooks.Common.Int.{ℤ, pos, negsuc}
use flooks.Common.Text.{◌+++◌, itoa_ℤ}

pub record Version : Type 0 where
  pub document : String
  pub summary : String

-- The newest version comes first.
pub record Item : Type 0 where
  pub kind : String
  pub slug : String
  pub title : String
  pub archived : Bool
  pub versions : List Version

-- The assets by their ids.
abbrev pub View : Type 0
View = ℕ → Option Item

infixl 5 ◌>>?◌
abbrev pub ◌>>?◌ : {A B : Type 0} → Option A → (A → Option B) → Option B
none >>? next = none
some a >>? next = next a

unfoldable pub put : ℕ → Item → View → View
put id x s j = if nat_eq id j then some x else s j

abbrev pub if_free : Option Item → View → Option View
if_free none s = some s
if_free (some x) s = none

-- A new asset has one version.
unfoldable pub add : ℕ → String → String → String → Version → View → Option View
unfolding put
add id kind slug title v s = if_free (s id) (
    put id (record { kind = kind; slug = slug; title = title; archived = false; versions = v ∷ [] })
      s)

-- A version on top of as many as the writer saw.
unfoldable pub append : ℕ → ℤ → String → Version → View → Option View
unfolding put
append id (negsuc n) title v s = none
append id (pos n) title v s = s id >>? λ x.
    if nat_eq (length x.versions) n
    then some (put id (record x { title = title; versions = v ∷ x.versions }) s)
    else none

abbrev pub shelved : Option Item → Option Item
shelved none = none
shelved (some x) = some (record x { archived = true })

unfoldable pub shelve : ℕ → View → View
shelve id s j = if nat_eq id j then shelved (s j) else s j

-- The version of a number, from 1 for the oldest.
unfoldable pub numbered : ℕ → List Version → Option Version
numbered r [] = none
numbered r (v ∷ vs) = if nat_eq r (length (v ∷ vs)) then some v else numbered r vs

-- The version that a reader asks for: 0 stands for the newest.
unfoldable pub read : ℤ → Item → Option Version
unfolding numbered
read (negsuc n) x = none
read (pos r) x = numbered (if nat_eq r 0 then length x.versions else r) x.versions

-- What a client asks of the store.
pub data Command : Type 0 where
  create : (kind slug title summary document : String) → Command
  update : (id : ℕ) (base : ℤ) (title summary document : String) → Command
  archive : (id : ℕ) → Command
  restore : (id : ℕ) (source base : ℤ) → Command

-- The assets behind a command that succeeds. `normal` is the form in which documents are kept, `fresh`
-- the id of a new asset; a restore reads in `seen`.
unfoldable pub apply : (String → Option String) → ℕ → Command → View → View → Option View
unfolding add append shelve read
apply normal fresh (create kind slug title summary document) seen s = normal document >>? λ d.
    add fresh kind slug title (record { document = d; summary = summary }) s
apply normal fresh (update id base title summary document) seen s =
    normal document >>? λ d. append id base title (record { document = d; summary = summary }) s
apply normal fresh (archive id) seen s = some (shelve id s)
apply normal fresh (restore id source base) seen s = seen id >>? λ x. read source x >>? λ v.
    normal v.document >>? λ d.
    append id base x.title
      (record { document = d; summary = "revision " +++ itoa_ℤ source +++ " 복원" }) s
