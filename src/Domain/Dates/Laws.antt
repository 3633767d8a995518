-- ===== src/Domain/Dates/Laws.antt =====
-- What `Dates` accepts, by printing.
use mathlib.Core.Bool.{and-eq-true_iff}
use flooks.Common.{
  ℕ, ◌+◌, ◌-◌, ◌*◌, ◌/◌, ◌%◌, ◌≤◌, ◌<◌, String, ◌≡◌, sym, ap, ◌↔◌, false, Bool, true, ◌&&◌, List,
  [], ◌∷◌, none, some, ok, arith, nat_eq, nat_eq_iff, if◌then◌else◌,
}
use flooks.Common.Text.{codes, is_digit}
use flooks.Domain.Spec.{QuerySpec}
use flooks.Domain.Dates.Defs.{
  Day, is_valid, days_in, parse_codes, parse_day, before, dates, checked,
}

-- The n-th digits of a number, as characters.
abbrev ones : ℕ → ℕ
ones n = 48 + n % 10

abbrev tens : ℕ → ℕ
tens n = 48 + n / 10 % 10

-- A day in the form "2006-01-02".
abbrev pub day_codes : Day → List ℕ
day_codes d =
    (48 + d.year / 1000)
    ∷ (48 + d.year / 100 % 10)
    ∷ tens d.year
    ∷ ones d.year
    ∷ b'-'
    ∷ (48 + d.month / 10)
    ∷ ones d.month
    ∷ b'-'
    ∷ (48 + d.day / 10)
    ∷ ones d.day
    ∷ []

-- A day of the calendar in a year of four digits.
pub record IsDay (d : Day) : Type 0 where
  pub four_digits : d.year < 10000
  pub month_from : 1 ≤ d.month
  pub month_to : d.month ≤ 12
  pub day_from : 1 ≤ d.day
  pub day_to : d.day ≤ days_in d.month d.year

-- A number that orders the days.
abbrev pub rank : Day → ℕ
rank d = (d.year * 13 + d.month) * 32 + d.day

days_in-le : (m y : ℕ) → days_in m y ≤ 31
unfolding days_in
days_in-le m y = ground arith

digit : (n : ℕ) → n < 10 → is_digit (48 + n) ≡ true
digit n h = ground arith

-- A number below 10000, 100 and 100 is read back from its digits.
four_back :
    (n : ℕ)
    → n < 10000
    → (48 + n / 1000 - 48) * 1000
        + (48 + n / 100 % 10 - 48) * 100
        + (tens n - 48) * 10
        + (ones n - 48)
      ≡ n
four_back n h = omega arith

two_back : (n : ℕ) → n < 100 → (48 + n / 10 - 48) * 10 + (ones n - 48) ≡ n
two_back n h = omega arith

print_digits : (d : Day) → IsDay d → parse_codes (day_codes d) ≡ checked d
unfolding parse_codes
print_digits d v =
    let short : d.day < 100 = omega (arith, days_in-le d.month d.year) in
    rw (
      digit (d.year / 1000) (omega arith),
      digit (d.year / 100 % 10) (omega arith),
      digit (d.year / 10 % 10) (omega arith),
      digit (d.year % 10) (omega arith),
      digit (d.month / 10) (omega arith),
      digit (d.month % 10) (omega arith),
      digit (d.day / 10) (omega arith),
      digit (d.day % 10) (omega arith),
      four_back d.year v.four_digits,
      two_back d.month (omega arith),
      two_back d.day short,
    )

is_valid_iff :
    (d : Day)
    → (is_valid d ≡ true)
      ↔ ((1 ≤ d.month) × (d.month ≤ 12) × (1 ≤ d.day) × (d.day ≤ days_in d.month d.year))
unfolding is_valid
is_valid_iff d = ground arith

-- Reading the form of a day of the calendar gives the day.
parse_codes-day_codes : (d : Day) → IsDay d → parse_codes (day_codes d) ≡ some d
parse_codes-day_codes d v =
    rw (print_digits d v, (is_valid_iff d).1 (v.month_from, v.month_to, v.day_from, v.day_to))

checked_sound :
    (t : Bool) (x d : Day)
    → (if t then checked x else none) ≡ some d
    → (t ≡ true) × (x ≡ d) × (is_valid d ≡ true)
checked_sound t x d h = ground arith

digit_bounds : (c : ℕ) → is_digit c ≡ true → (48 ≤ c) × (c ≤ 57)
digit_bounds c h = ground arith

-- What the test of `parse_codes` says of the ten characters.
record Shape (a b c e s f g t h k : ℕ) : Type 0 where
  year :
      ((48 ≤ a) × (a ≤ 57)) × ((48 ≤ b) × (b ≤ 57)) × ((48 ≤ c) × (c ≤ 57)) × ((48 ≤ e) × (e ≤ 57))
  dashes : (s ≡ b'-') × (t ≡ b'-')
  month : ((48 ≤ f) × (f ≤ 57)) × ((48 ≤ g) × (g ≤ 57))
  day : ((48 ≤ h) × (h ≤ 57)) × ((48 ≤ k) × (k ≤ 57))

shape :
    (a b c e s f g t h k : ℕ)
    → (is_digit a
        && is_digit b
        && is_digit c
        && is_digit e
        && nat_eq s b'-'
        && is_digit f
        && is_digit g
        && nat_eq t b'-'
        && is_digit h
        && is_digit k)
      ≡ true
    → Shape a b c e s f g t h k
shape a b c e s f g t h k p =
    let (p1, pk) = (and-eq-true_iff _ _).0 p in
    let (p2, ph) = (and-eq-true_iff _ _).0 p1 in
    let (p3, pt) = (and-eq-true_iff _ _).0 p2 in
    let (p4, pg) = (and-eq-true_iff _ _).0 p3 in
    let (p5, pf) = (and-eq-true_iff _ _).0 p4 in
    let (p6, ps) = (and-eq-true_iff _ _).0 p5 in
    let (p7, pe) = (and-eq-true_iff _ _).0 p6 in
    let (p8, pc) = (and-eq-true_iff _ _).0 p7 in
    let (pa, pb) = (and-eq-true_iff _ _).0 p8 in
    record {
      year = (digit_bounds a pa, digit_bounds b pb, digit_bounds c pc, digit_bounds e pe);
      dashes = ((nat_eq_iff s _).0 ps, (nat_eq_iff t _).0 pt);
      month = (digit_bounds f pf, digit_bounds g pg);
      day = (digit_bounds h ph, digit_bounds k pk);
    }

parse_codes_sound : (cs : List ℕ) (d : Day) → parse_codes cs ≡ some d → (day_codes d ≡ cs) × IsDay d
unfolding parse_codes
parse_codes_sound (a ∷ b ∷ c ∷ e ∷ s ∷ f ∷ g ∷ t ∷ h ∷ k ∷ []) d p =
    let (tests, same, valid) = checked_sound _ _ d p in
    let sh = shape a b c e s f g t h k tests in
    let y : (a - 48) * 1000 + (b - 48) * 100 + (c - 48) * 10 + (e - 48) ≡ d.year =
      ap (λ (x : Day). x.year) same in
    let m : (f - 48) * 10 + (g - 48) ≡ d.month = ap (λ (x : Day). x.month) same in
    let z : (h - 48) * 10 + (k - 48) ≡ d.day = ap (λ (x : Day). x.day) same in
    let (v1, v2, v3, v4) = (is_valid_iff d).0 valid in
    (
      ground arith,
      record {
        four_digits = omega arith;
        month_from = v1;
        month_to = v2;
        day_from = v3;
        day_to = v4;
      },
    )
parse_codes_sound _ d p = cc

before_iff : (a b : Day) → IsDay a → IsDay b → (before a b ≡ true) ↔ (rank a < rank b)
unfolding before
before_iff a b v w = ground (arith, days_in-le a.month a.year, days_in-le b.month b.year)

-- What `Dates` reads from one text.
parse_day_iff :
    (s : String) (d : Day) → (parse_day s ≡ some d) ↔ ((codes s ≡ day_codes d) × IsDay d)
unfolding parse_day
parse_day_iff s d = (
  λ p. let (same, v) = parse_codes_sound (codes s) d p in (sym same, v),
  λ (same, v). rw same (parse_codes-day_codes d v),
)

-- The two ends of a range are days of the calendar, in order, and the texts are their printed forms.
pub record IsRange (s : QuerySpec) (a b : Day) : Type 0 where
  pub start_text : codes s.time_range.start ≡ day_codes a
  pub end_text : codes s.time_range.end ≡ day_codes b
  pub start_day : IsDay a
  pub end_day : IsDay b
  pub in_order : rank a ≤ rank b

dates_steps :
    (s : QuerySpec) (a b : Day)
    → (dates s ≡ ok (a, b)) ↔ (
        (parse_day s.time_range.start ≡ some a)
        × (parse_day s.time_range.end ≡ some b)
        × (before b a ≡ false))
unfolding dates
dates_steps s a b = ground arith

-- `Dates` returns the days a and b exactly when the two texts of the range are a and b printed as
-- "2006-01-02", both are days of the calendar in years of four digits, and b does not precede a.
pub dates_iff : (s : QuerySpec) (a b : Day) → (dates s ≡ ok (a, b)) ↔ IsRange s a b
dates_iff s a b = (to, from)
  where
    to : dates s ≡ ok (a, b) → IsRange s a b
    to p =
        let (pa, pb, no_less) = (dates_steps s a b).0 p in
        let (ta, va) = (parse_day_iff _ a).0 pa in
        let (tb, vb) = (parse_day_iff _ b).0 pb in
        record {
          start_text = ta;
          end_text = tb;
          start_day = va;
          end_day = vb;
          in_order = ground (arith, before_iff b a vb va);
        }

    from : IsRange s a b → dates s ≡ ok (a, b)
    from r = (dates_steps s a b).1 (
      (parse_day_iff _ a).1 (r.start_text, r.start_day),
      (parse_day_iff _ b).1 (r.end_text, r.end_day),
      ground (arith, before_iff b a r.end_day r.start_day),
    )
