-- ===== src/Loader.antt =====
-- internal/manifest/loader.go: `LoadDirectory`.
pub mod Laws
use Prim.Native.Char.{code}
use Prim.Native.String
use flooks.Common.{
  ℕ, String, Bool, true, false, ◌&&◌, ◌||◌, not, List, [], ◌∷◌, ◌++◌, Result, ok, err, ◌>>=◌,
  nat_eq, ◌==◌, if◌then◌else◌,
}
use flooks.Common.Int.{ℤ, pos, eq_ℤ}
use flooks.Common.Text.{codes}
use flooks.Domain.Manifest.{DatasetManifest}

-- `os.DirEntry`, as far as the loader reads it.
pub record Entry : Type 0 where
  pub name : String
  pub is_dir : Bool

pub data LoadError (E : Type 0) : Type 0 where
  directory : E → LoadError E
  file : E → LoadError E
  syntax : String → E → LoadError E
  incomplete : String → LoadError E
  no_manifests : LoadError E

-- `strings.HasSuffix`
unfoldable pub has_suffix : String → String → Bool
has_suffix String.[] suffix = "" == suffix
has_suffix (String.◌∷◌ c s) suffix = String.◌∷◌ c s == suffix || has_suffix s suffix

abbrev pub is_skipped : Entry → Bool
is_skipped e = e.is_dir || not (has_suffix e.name ".yaml") && not (has_suffix e.name ".yml")

abbrev pub is_incomplete : DatasetManifest → Bool
is_incomplete m = not (eq_ℤ m.version (pos 1)) || m.key == "" || m.connector == ""

abbrev pub tag {ℓ} : {E F A : Type ℓ} → (E → F) → Result E A → Result F A
tag f (ok a) = ok a
tag f (err e) = err (f e)

-- `read_file` reads a file of the directory, `unmarshal` is `yaml.Unmarshal`.
module _ {E : Type 0} (read_file : String → Result E String)
    (unmarshal : String → Result E DatasetManifest) where
  -- The body of the loop, for an entry that is not skipped.
  unfoldable pub load_entry : Entry → Result (LoadError E) DatasetManifest
  load_entry e = do
    payload ← tag file (read_file e.name)
    item ← tag (syntax e.name) (unmarshal payload)
    if is_incomplete item then err (incomplete e.name) else ok item

  unfoldable pub load_entries :
      List Entry → List DatasetManifest → Result (LoadError E) (List DatasetManifest)
  unfolding load_entry
  load_entries [] manifests = ok manifests
  load_entries (e ∷ es) manifests =
      let skip = load_entries es manifests in
      let load = (do item ← load_entry e; load_entries es (manifests ++ item ∷ [])) in
      if is_skipped e then skip else load

  abbrev pub some_loaded : List DatasetManifest → Result (LoadError E) (List DatasetManifest)
  some_loaded [] = err no_manifests
  some_loaded (m ∷ ms) = ok (m ∷ ms)

  -- `LoadDirectory`, from what `os.ReadDir` returned.
  unfoldable pub load_directory :
      Result E (List Entry) → Result (LoadError E) (List DatasetManifest)
  unfolding load_entries
  load_directory entries = do
    es ← tag directory entries
    manifests ← load_entries es []
    some_loaded manifests
