-- ===== src/Domain/Dates/Defs.antt =====
-- internal/domain/query.go: the days of a time range. A `time.Time` that `time.Parse` reads at the
-- layout "2006-01-02" is midnight of a day, in UTC, and stands here as that day.
use flooks.Common.{
  ℕ, ◌+◌, ◌-◌, ◌*◌, ◌%◌, String, Bool, ◌&&◌, ◌||◌, not, Option, none, some, List, [], ◌∷◌, Result,
  ok, err, ◌>>=◌, leb, ltb, nat_eq, if◌then◌else◌,
}
use flooks.Common.Text.{codes, is_digit}
use flooks.Domain.Spec.{QuerySpec}

pub record Day : Type 0 where
  pub year : ℕ
  pub month : ℕ
  pub day : ℕ

unfoldable pub is_leap : ℕ → Bool
is_leap y = nat_eq (y % 4) 0 && (not (nat_eq (y % 100) 0) || nat_eq (y % 400) 0)

-- `daysIn` of package time
unfoldable pub days_in : ℕ → ℕ → ℕ
unfolding is_leap
days_in m y =
    if nat_eq m 2
    then (if is_leap y then 29 else 28)
    else if nat_eq m 4 || nat_eq m 6 || nat_eq m 9 || nat_eq m 11
    then 30
    else 31

-- The range checks at the end of `time.Parse`.
unfoldable pub is_valid : Day → Bool
is_valid d = leb 1 d.month && leb d.month 12 && leb 1 d.day && leb d.day (days_in d.month d.year)

abbrev pub checked : Day → Option Day
checked d = if is_valid d then some d else none

-- Four digits, a dash, two digits, a dash, two digits, and no more.
unfoldable pub parse_codes : List ℕ → Option Day
parse_codes (a ∷ b ∷ c ∷ d ∷ s ∷ e ∷ f ∷ t ∷ g ∷ h ∷ []) =
    if is_digit a
      && is_digit b
      && is_digit c
      && is_digit d
      && nat_eq s b'-'
      && is_digit e
      && is_digit f
      && nat_eq t b'-'
      && is_digit g
      && is_digit h
    then checked (record {
      year = (a - 48) * 1000 + (b - 48) * 100 + (c - 48) * 10 + (d - 48);
      month = (e - 48) * 10 + (f - 48);
      day = (g - 48) * 10 + (h - 48);
    })
    else none
parse_codes _ = none

unfoldable pub parse_day : String → Option Day
unfolding parse_codes is_valid days_in
parse_day s = parse_codes (codes s)

-- `Before`
unfoldable pub before : Day → Day → Bool
before a b =
    ltb a.year b.year
    || nat_eq a.year b.year && (ltb a.month b.month || nat_eq a.month b.month && ltb a.day b.day)

pub data DateError : Type 0 where
  bad_start bad_end end_precedes_start : DateError

pub parsed : DateError → Option Day → Result DateError Day
parsed e none = err e
parsed e (some d) = ok d

-- `QuerySpec.Dates`
unfoldable pub dates : QuerySpec → Result DateError (Day × Day)
unfolding parsed
dates s = do
  start ← parsed bad_start (parse_day s.time_range.start)
  end ← parsed bad_end (parse_day s.time_range.end)
  if before end start then err end_precedes_start else ok (start, end)
