-- ===== src/Http/Safety.antt =====
-- What the endpoints do to the tables.
use flooks.Common.{ℕ, ◌≤◌, String, ◌≡◌, refl, inl, inr, Option-cases, Result, ok, err, arith}
use flooks.Common.Int.{ℤ}
use flooks.Common.Text.{codes}
use flooks.Assets.Tables.{Tables, StoreError, conflict, no_rows, failed}
use flooks.Assets.Store.{
  Asset, Codec, Env, create, update, restore, archive, write_asset, autocommit, Commit, committed,
  refused, unanswered,
}
use flooks.Assets.Conflict.{IsUndone, failed-unchanged}
use flooks.Http.Wire.{Request, Response, Readers, found_id, etag, atoi, singular_kind}
use flooks.Http.Handlers.{
  write_body, created, updated, restored, revision_number, create_asset, update_asset,
  archive_asset, archived, restore_revision, get_asset, list_assets, list_revisions, stop_or,
}
use flooks.Http.Routes.{
  Endpoint, live, ready, status, datasets, dataset, validate_query, execute_query, stream_events,
  Server, serve,
}

module _ {W E : Type 0} (s : Server W E) where
  pub get_asset-Leaves : (r : Request) (t : Tables) → (get_asset s.readers s.codec s.env r t).1 ≡ t
  unfolding get_asset
  get_asset-Leaves r t = ground arith

  pub list_revisions-Leaves :
      (r : Request) (t : Tables) → (list_revisions s.readers s.codec s.env r t).1 ≡ t
  unfolding list_revisions
  list_revisions-Leaves r t = ground arith

module _ (readers : Readers) (codec : Codec) (env : Env) (r : Request) (t : Tables) where
  -- Where the answer reports an error, the tables are as before, but for a lost answer.
  abbrev pub IsSafe : Response × Tables → Type 0
  IsSafe (out, u) = 400 ≤ out.status → IsUndone env t u

  created-IsSafe :
      (kind slug title summary document : String) (p : Result StoreError Asset × Tables)
      → create codec env kind slug title summary document t ≡ p
      → IsSafe (created readers codec env p)
  created-IsSafe kind slug title summary document (ok a, u) h = λ k. absurd (omega arith)
  created-IsSafe kind slug title summary document (err e, u) h =
      λ k. (failed-unchanged codec env t u e).0 kind slug title summary document h

  updated-IsSafe :
      (id : ℕ) (base : ℤ) (title summary document : String) (p : Result StoreError Asset × Tables)
      → update codec env id base title summary document t ≡ p
      → IsSafe (updated readers codec env p)
  updated-IsSafe id base title summary document (ok a, u) h = λ k. absurd (omega arith)
  updated-IsSafe id base title summary document (err conflict, u) h =
      λ k. (failed-unchanged codec env t u conflict).1 id base title summary document h
  updated-IsSafe id base title summary document (err no_rows, u) h =
      λ k. (failed-unchanged codec env t u no_rows).1 id base title summary document h
  updated-IsSafe id base title summary document (err (failed e), u) h =
      λ k. (failed-unchanged codec env t u (failed e)).1 id base title summary document h

  restored-IsSafe :
      (id : ℕ) (source base : ℤ) (seen : Tables) (p : Result StoreError Asset × Tables)
      → restore codec env id source base seen t ≡ p
      → IsSafe (restored readers codec env p)
  restored-IsSafe id source base seen (ok a, u) h = λ k. absurd (omega arith)
  restored-IsSafe id source base seen (err conflict, u) h =
      λ k. (failed-unchanged codec env t u conflict).2 id source base seen h
  restored-IsSafe id source base seen (err no_rows, u) h =
      λ k. (failed-unchanged codec env t u no_rows).2 id source base seen h
  restored-IsSafe id source base seen (err (failed e), u) h =
      λ k. (failed-unchanged codec env t u (failed e)).2 id source base seen h

  stop_or-IsSafe :
      {A : Type 0} (x : Result Response A) (k : A → Response × Tables)
      → ((a : A) → x ≡ ok a → IsSafe (k a))
      → IsSafe (stop_or x t k)
  stop_or-IsSafe (ok a) k h = h a refl
  stop_or-IsSafe (err e) k h = λ n. inl refl

  create_asset-IsSafe : IsSafe (create_asset readers codec env r t)
  unfolding create_asset
  create_asset-IsSafe = stop_or-IsSafe (write_body readers r) _ (λ body e.
      created-IsSafe (singular_kind r.kind) body.slug body.title body.summary body.document _ refl)

  update_asset-IsSafe : IsSafe (update_asset readers codec env r t)
  unfolding update_asset
  update_asset-IsSafe = stop_or-IsSafe (found_id (readers.uuid r.id)) _ (λ id a.
      stop_or-IsSafe (etag r) _ (λ base b.
        stop_or-IsSafe (write_body readers r) _
          (λ body c. updated-IsSafe id base body.title body.summary body.document _ refl)))

  restore_revision-IsSafe : (seen : Tables) → IsSafe (restore_revision readers codec env r seen t)
  unfolding restore_revision
  restore_revision-IsSafe seen = stop_or-IsSafe (found_id (readers.uuid r.id)) _ (λ id a.
      stop_or-IsSafe (etag r) _ (λ base b.
        stop_or-IsSafe (revision_number readers codec env (atoi (codes r.revision))) _
          (λ source c. restored-IsSafe id source base seen _ refl)))

  autocommit-IsSafe :
      (u : Tables) (c : Commit)
      → env.commit ≡ c
      → IsSafe (archived readers codec env (autocommit c t u))
  autocommit-IsSafe u committed h = λ n. absurd (omega arith)
  autocommit-IsSafe u (refused e) h = λ n. inl refl
  autocommit-IsSafe u (unanswered e) h = λ n. inr (e, h)

  archive_asset-IsSafe : IsSafe (archive_asset readers codec env r t)
  unfolding archive_asset archive
  archive_asset-IsSafe = stop_or-IsSafe (found_id (readers.uuid r.id)) _ (λ id a.
      elim (Option-cases (env.fault write_asset)) [
        | inl e ↦ rw (e, archive) (autocommit-IsSafe _ env.commit refl)
        | inr (x, e) ↦ rw (e, archive) (λ n. inl refl)
      ])

-- Whatever the endpoint, the request and the failures: where the answer's status is 400 or above, the
-- tables are as they were, unless the answer to a commit was lost.
pub serve_refused :
    {W E : Type 0} (s : Server W E) (e : Endpoint) (r : Request) (seen t : Tables) (w : W)
    → 400 ≤ (serve s e r seen t w).0.status
    → IsUndone s.env t (serve s e r seen t w).1
unfolding serve
serve_refused s live r seen t w h = inl refl
serve_refused s ready r seen t w h = inl refl
serve_refused s status r seen t w h = inl refl
serve_refused s datasets r seen t w h = inl refl
serve_refused s dataset r seen t w h = inl refl
serve_refused s validate_query r seen t w h = inl refl
serve_refused s execute_query r seen t w h = inl refl
serve_refused s stream_events r seen t w h = inl refl
serve_refused s Endpoint.list_assets r seen t w h = inl (unfold list_assets in refl)
serve_refused s Endpoint.create_asset r seen t w h =
    create_asset-IsSafe s.readers s.codec s.env r t h
serve_refused s Endpoint.get_asset r seen t w h = inl (get_asset-Leaves s r t)
serve_refused s Endpoint.update_asset r seen t w h =
    update_asset-IsSafe s.readers s.codec s.env r t h
serve_refused s Endpoint.archive_asset r seen t w h =
    archive_asset-IsSafe s.readers s.codec s.env r t h
serve_refused s Endpoint.list_revisions r seen t w h = inl (list_revisions-Leaves s r t)
serve_refused s Endpoint.get_revision r seen t w h = inl (get_asset-Leaves s r t)
serve_refused s Endpoint.restore_revision r seen t w h =
    restore_revision-IsSafe s.readers s.codec s.env r t seen h
