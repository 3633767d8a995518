-- ===== src/Loader/Laws.antt =====
-- What `LoadDirectory` returns.
use mathlib.Core.List.{append_assoc, append-nil}
use text.Mathlib.TextLemmas.{nil-append, cons-append}
use flooks.Common.{
  String, ◌≡◌, ◌≢◌, ◌⊎◌, ◌==◌, refl, ap, sym, subst, ◌∙◌, true, false, Bool-cases, inl, inr, List,
  [], ◌∷◌, ◌++◌, Result, ok, >>=-eq-ok, arith, eq_iff,
}
use flooks.Common.Text.{◌+++◌}
use flooks.Common.Int.{pos, eq_ℤ_iff}
use flooks.Domain.Manifest.{DatasetManifest}
use flooks.Loader.{
  Entry, has_suffix, is_skipped, load_entry, load_entries, load_directory, some_loaded,
}

-- A version, a key and a connector, as the loader wants them.
abbrev pub IsComplete : DatasetManifest → Type 0
IsComplete m = (m.version ≡ pos 1) × (m.key ≢ "") × (m.connector ≢ "")

-- The name is something and the extension.
abbrev pub EndsIn : String → String → Type 0
EndsIn name extension = (base : String) × (name ≡ base +++ extension)

-- A YAML file, as its directory names it.
abbrev pub IsYaml : Entry → Type 0
IsYaml e = (e.is_dir ≡ false) × (EndsIn e.name ".yaml" ⊎ EndsIn e.name ".yml")

has_suffix_self : (s : String) → has_suffix s s ≡ true
unfolding has_suffix
has_suffix_self String.[] = refl
has_suffix_self (String.◌∷◌ c s) =
    let same = (eq_iff (String.◌∷◌ c s) (String.◌∷◌ c s)).1 refl in ground (arith, same)

has_suffix_sound : (s suffix : String) → has_suffix s suffix ≡ true → EndsIn s suffix
unfolding has_suffix
has_suffix_sound String.[] suffix h = ("", (eq_iff "" suffix).0 h ∙ sym (nil-append suffix))
has_suffix_sound (String.◌∷◌ c s) suffix h = elim (Bool-cases (String.◌∷◌ c s == suffix)) [
  | inl e ↦ ("", (eq_iff (String.◌∷◌ c s) suffix).0 e ∙ sym (nil-append suffix))
  | inr e ↦
      let (base, same) = has_suffix_sound s suffix (ground arith) in
      (String.◌∷◌ c base, ap (λ t. String.◌∷◌ c t) same ∙ sym (cons-append c base suffix))
]

has_suffix_complete : (base suffix : String) → has_suffix (base +++ suffix) suffix ≡ true
unfolding has_suffix
has_suffix_complete String.[] suffix = rw (nil-append suffix) (has_suffix_self suffix)
has_suffix_complete (String.◌∷◌ c base) suffix =
    rw (cons-append c base suffix) (ground (arith, has_suffix_complete base suffix))

EndsIn-has_suffix : (s suffix : String) → EndsIn s suffix → has_suffix s suffix ≡ true
EndsIn-has_suffix s suffix (base, h) = rw h (has_suffix_complete base suffix)

read-IsYaml : (e : Entry) → is_skipped e ≡ false → IsYaml e
read-IsYaml e h = elim (Bool-cases (has_suffix e.name ".yaml")) [
  | inl y ↦ (ground arith, inl (has_suffix_sound e.name ".yaml" y))
  | inr n ↦ (ground arith, inr (has_suffix_sound e.name ".yml" (ground arith)))
]

skipped_not-IsYaml : (e : Entry) → is_skipped e ≡ true → ¬ IsYaml e
skipped_not-IsYaml e h (d, inl y) = ground (arith, EndsIn-has_suffix e.name ".yaml" y)
skipped_not-IsYaml e h (d, inr y) = ground (arith, EndsIn-has_suffix e.name ".yml" y)

module _ {E : Type 0} (read_file : String → Result E String)
    (unmarshal : String → Result E DatasetManifest) where
  -- The manifest of a file, as the directory's listing names it.
  abbrev pub IsFileOf : Entry → DatasetManifest → Type 0
  IsFileOf e m =
      IsYaml e × (payload : String) × (read_file e.name ≡ ok payload) × (unmarshal payload ≡ ok m)

  -- The manifests are those of the YAML files, in the order of the listing.
  pub data AreFilesOf : List Entry → List DatasetManifest → Type 0 where
    done : AreFilesOf [] []
    skipped :
        {e : Entry} {es : List Entry} {ms : List DatasetManifest}
        → ¬ IsYaml e
        → AreFilesOf es ms
        → AreFilesOf (e ∷ es) ms
    loaded :
        {e : Entry} {es : List Entry} {m : DatasetManifest} {ms : List DatasetManifest}
        → IsFileOf e m
        → IsComplete m
        → AreFilesOf es ms
        → AreFilesOf (e ∷ es) (m ∷ ms)

  load_entry_ok :
      (e : Entry) (m : DatasetManifest)
      → load_entry read_file unmarshal e ≡ ok m
      → (payload : String) × (read_file e.name ≡ ok payload)
        × (unmarshal payload ≡ ok m)
        × IsComplete m
  unfolding load_entry
  load_entry_ok e m h =
      ground (arith, eq_ℤ_iff m.version (pos 1), eq_iff m.key "", eq_iff m.connector "")

  load_entries-AreFilesOf :
      (es : List Entry) (acc ms : List DatasetManifest)
      → load_entries read_file unmarshal es acc ≡ ok ms
      → (new : List DatasetManifest) × (ms ≡ acc ++ new) × AreFilesOf es new
  unfolding load_entries
  load_entries-AreFilesOf [] acc ms h = ([], ground (arith, append-nil acc), done)
  load_entries-AreFilesOf (e ∷ es) acc ms h = elim (Bool-cases (is_skipped e)) [
    | inl s ↦
        let (new, same, files) = load_entries-AreFilesOf es acc ms (rw s at h) in
        (new, same, skipped (skipped_not-IsYaml e s) files)
    | inr s ↦
        let (m, one, rest) = >>=-eq-ok (load_entry read_file unmarshal e) _ (rw s at h) in
        let (new, same, files) = load_entries-AreFilesOf es (acc ++ m ∷ []) ms rest in
        let (payload, read, parsed, complete) = load_entry_ok e m one in
        (
          m ∷ new,
          same ∙ append_assoc acc (m ∷ []) new,
          loaded (read-IsYaml e s, payload, read, parsed) complete files,
        )
  ]

  some_loaded_ok :
      (found ms : List DatasetManifest)
      → some_loaded read_file unmarshal found ≡ ok ms
      → (found ≡ ms) × (ms ≢ [])
  some_loaded_ok [] ms h = absurd (ground arith)
  some_loaded_ok (m ∷ found) ms h = (ground arith, λ k. ground arith)

  -- What `LoadDirectory` returns is the manifests of the directory's YAML files, in the order of the
  -- listing, every one of them with the version 1, a key and a connector; and it is not empty. A YAML
  -- file is an entry that is no directory and has a name in .yaml or .yml.
  pub load_directory-AreFilesOf :
      (es : List Entry) (ms : List DatasetManifest)
      → load_directory read_file unmarshal (ok es) ≡ ok ms
      → AreFilesOf es ms × (ms ≢ [])
  unfolding load_directory
  load_directory-AreFilesOf es ms h =
      let (found, loads, some) = >>=-eq-ok (load_entries read_file unmarshal es []) _ h in
      let (new, same, files) = load_entries-AreFilesOf es [] found loads in
      let (is, nonempty) = some_loaded_ok found ms some in
      (subst (AreFilesOf es) (sym same ∙ is) files, nonempty)
