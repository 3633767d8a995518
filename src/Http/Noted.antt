-- ===== src/Http/Noted.antt =====
-- A database that notes the SQL that it is sent, and what a note means.
use flooks.Common.{ℕ, String, ◌≡◌, some, List, ◌∷◌, ok, All}
use flooks.Common.Dict.{lookup}
use flooks.Domain.Manifest.{DatasetManifest}
use flooks.Domain.Spec.{QuerySpec}
use flooks.Query.Validate.Accepts.{IsAllowed}
use flooks.Query.Validate.Normal.{IsNormal}
use flooks.Query.Service.{Services}
use flooks.Postgres.Compile.{Printer, Arg}
use flooks.Postgres.Compile.Tree.{Tree, Binds, print, meant}
use flooks.Postgres.Execute.{Database}

-- What was sent, the latest first.
abbrev pub Sent : Type 0
Sent = List (String × List Arg)

abbrev pub besides : {A W : Type 0} → Sent → A × W → A × (W × Sent)
besides l (a, w) = (a, (w, l))

-- A database that notes each text with its arguments.
abbrev pub noting : {W E : Type 0} → Database W E → Database (W × Sent) E
noting db = record {
  wait = λ seconds v. besides v.1 (db.wait seconds v.0);
  query = λ seconds sql args v. besides ((sql, args) ∷ v.1) (db.query seconds sql args v.0);
  duration = λ start end. db.duration start.0 end.0;
  rfc3339 = db.rfc3339;
  text = db.text;
}

-- The cache and the calls in flight take no notice.
abbrev pub noting_services : {W E : Type 0} → Services W E → Services (W × Sent) E
noting_services x = record {
  get = λ key v. x.get key v.0;
  set = λ key payload ttl v. (x.set key payload ttl v.0, v.1);
  encode = x.encode;
  decode = x.decode;
  joined = λ key v. x.joined key v.0;
  marshal = x.marshal;
  digest = x.digest;
}

-- A text and its arguments, for a query that the manifests allow: the text is the print of a tree with
-- numbered placeholders, which read with the arguments is what the query means.
pub record IsMeant (p : Printer) (manifests : List (String × DatasetManifest)) (sql : String)
    (args : List Arg) : Type 0 where
  pub asked : QuerySpec
  pub normal : QuerySpec
  pub manifest : DatasetManifest
  pub known : lookup asked.dataset_key manifests ≡ some manifest
  pub allowed : IsAllowed manifest asked
  pub limited : IsNormal manifest asked normal
  pub tree : Tree Arg
  pub numbered : Tree ℕ
  pub meaning : meant p manifest normal ≡ ok tree
  pub text : sql ≡ print numbered
  pub values : Binds args numbered tree

abbrev pub AreMeant : Printer → List (String × DatasetManifest) → Sent → Type 0
AreMeant p manifests l = All (λ (q : String × List Arg). IsMeant p manifests q.0 q.1) l
