-- ===== src/Query/Validate/Normal.antt =====
-- What `Validate` makes of a specification.
use flooks.Common.{String, ◌≡◌, refl, sym, ap, subst, ◌↔◌, iff_trans, some, List, ok, arith}
use flooks.Common.Int.{ℤ, pos, ◌≤ℤ◌}
use flooks.Common.Dict.{lookup}
use flooks.Domain.Manifest.{DatasetManifest}
use flooks.Domain.Spec.{QuerySpec}
use flooks.Query.Validate.Defs.{clamp_limit, validate_with, validate}
use flooks.Query.Validate.Accepts.{IsAllowed, validate_with_iff}

-- A limit that the query leaves out, or gives as no positive number, is the default; and what is
-- above the maximum is the maximum.
pub record IsClamped (m : DatasetManifest) (given used : ℤ) : Type 0 where
  pub asked : pos 1 ≤ℤ given → given ≤ℤ m.limits.max_rows → used ≡ given
  pub capped : pos 1 ≤ℤ given → m.limits.max_rows ≤ℤ given → used ≡ m.limits.max_rows
  pub defaulted :
      given ≤ℤ pos 0 → m.limits.default_rows ≤ℤ m.limits.max_rows → used ≡ m.limits.default_rows
  pub default_capped :
      given ≤ℤ pos 0 → m.limits.max_rows ≤ℤ m.limits.default_rows → used ≡ m.limits.max_rows

-- `t` is `s` with its limit clamped.
pub record IsNormal (m : DatasetManifest) (s t : QuerySpec) : Type 0 where
  pub others : t ≡ record s { limit = t.limit }
  pub limit : IsClamped m s.limit t.limit

IsClamped-iff :
    (m : DatasetManifest) (given used : ℤ) → (used ≡ clamp_limit m given) ↔ IsClamped m given used
unfolding clamp_limit
IsClamped-iff m given used = (
  λ e. (record {
    asked = λ p q. ground arith;
    capped = λ p q. ground arith;
    defaulted = λ p q. ground arith;
    default_capped = λ p q. ground arith;
  }),
  λ c. ground (arith, c.asked, c.capped, c.defaulted, c.default_capped),
)

module _ (manifests : List (String × DatasetManifest)) (s t : QuerySpec) (m : DatasetManifest) where
  validate_steps :
      (validate manifests s ≡ ok (t, m))
      ↔ ((lookup s.dataset_key manifests ≡ some m) × (validate_with m s ≡ ok t))
  unfolding validate
  validate_steps = ground arith

  -- `Validate` returns t and the manifest m exactly when m is the dataset's manifest, m allows the
  -- specification, and t is the specification with its limit clamped to the policy of m: a
  -- positive limit is kept up to the maximum, any other is the default, and nothing else changes.
  pub validate_iff :
      (validate manifests s ≡ ok (t, m))
      ↔ ((lookup s.dataset_key manifests ≡ some m) × IsAllowed m s × IsNormal m s t)
  validate_iff = iff_trans validate_steps (
    λ (l, v). let (allowed, same) = (validate_with_iff m s t).0 v in (l, allowed, normal same),
    λ (l, allowed, n). (l, (validate_with_iff m s t).1 (allowed, clamped n)),
  )
    where
      normal : t ≡ record s { limit = clamp_limit m s.limit } → IsNormal m s t
      normal e = record {
        others = rw e;
        limit = (IsClamped-iff m s.limit t.limit).0 (ap (λ (x : QuerySpec). x.limit) e);
      }

      clamped : IsNormal m s t → t ≡ record s { limit = clamp_limit m s.limit }
      clamped n = cc (n.others, (IsClamped-iff m s.limit t.limit).1 n.limit)

-- The limit takes no part in what is allowed.
IsAllowed-limit :
    (m : DatasetManifest) (s : QuerySpec) (l : ℤ)
    → IsAllowed m s
    → IsAllowed m (record s { limit = l })
IsAllowed-limit m s l v =
    let (a, b, r) = v.range in
    record {
      range = (
        a,
        b,
        record {
          start_text = r.start_text;
          end_text = r.end_text;
          start_day = r.start_day;
          end_day = r.end_day;
          in_order = r.in_order;
        },
      );
      selects = v.selects;
      dimensions = v.dimensions;
      metrics = v.metrics;
      filters = v.filters;
      sort = v.sort;
      offset = v.offset;
    }

IsClamped-again :
    (m : DatasetManifest) (given used : ℤ)
    → pos 1 ≤ℤ m.limits.max_rows
    → IsClamped m given used
    → IsClamped m used used
IsClamped-again m given used x c = record {
  asked = λ p q. refl;
  capped = λ p q. ground (arith, c.asked, c.capped, c.defaulted, c.default_capped);
  defaulted = λ p q. ground (arith, c.asked, c.capped, c.defaulted, c.default_capped);
  default_capped = λ p q. ground (arith, c.asked, c.capped, c.defaulted, c.default_capped);
}

-- What `Validate` returned under a policy whose maximum is at least one row, it accepts again and
-- leaves as it is.
validate_idempotent :
    (manifests : List (String × DatasetManifest)) (s t : QuerySpec) (m : DatasetManifest)
    → validate manifests s ≡ ok (t, m)
    → pos 1 ≤ℤ m.limits.max_rows
    → validate manifests t ≡ ok (t, m)
validate_idempotent manifests s t m h x =
    let (l, v, n) = (validate_iff manifests s t m).0 h in
    let key : t.dataset_key ≡ s.dataset_key = ap (λ (x : QuerySpec). x.dataset_key) n.others in
    (validate_iff manifests t t m).1 (
      rw key l,
      subst (IsAllowed m) (sym n.others) (IsAllowed-limit m s t.limit v),
      record { others = refl; limit = IsClamped-again m s.limit t.limit x n.limit },
    )

clamped_bounds :
    (m : DatasetManifest) (given used : ℤ)
    → IsClamped m given used
    → pos 1 ≤ℤ m.limits.default_rows
    → pos 1 ≤ℤ m.limits.max_rows
    → (pos 1 ≤ℤ used) × (used ≤ℤ m.limits.max_rows)
clamped_bounds m given used c d x = ground (arith, c.asked, c.capped, c.defaulted, c.default_capped)

-- With a policy of at least one row, the limit that `Validate` returns is at least 1, and at most
-- the policy's maximum.
limit-validate :
    (manifests : List (String × DatasetManifest)) (s t : QuerySpec) (m : DatasetManifest)
    → validate manifests s ≡ ok (t, m)
    → pos 1 ≤ℤ m.limits.default_rows
    → pos 1 ≤ℤ m.limits.max_rows
    → (pos 1 ≤ℤ t.limit) × (t.limit ≤ℤ m.limits.max_rows) × (pos 0 ≤ℤ t.offset)
limit-validate manifests s t m h d x =
    let (l, v, n) = (validate_iff manifests s t m).0 h in
    let same : t.offset ≡ s.offset = ap (λ (y : QuerySpec). y.offset) n.others in
    let (low, high) = clamped_bounds m s.limit t.limit n.limit d x in (low, high, rw same v.offset)
