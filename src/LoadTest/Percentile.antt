-- ===== src/LoadTest/Percentile.antt =====
-- When the load test passes.
use flooks.Common.{
  ℕ, ◌+◌, ◌≤◌, ◌≡◌, ◌↔◌, Bool, false, Option, none, some, List, [], ◌∷◌, length, All, leb,
  if◌then◌else◌,
}
use flooks.LoadTest.{Answer, failed, after, Tally, limit}

-- How many numbers are within the limit.
unfoldable pub fast : List ℕ → ℕ
fast [] = 0
fast (x ∷ xs) = (if leb x limit then 1 else 0) + fast xs

-- How many answers came within the limit.
unfoldable pub answered_fast : List Answer → ℕ
answered_fast [] = 0
answered_fast (failed ∷ answers) = answered_fast answers
answered_fast (after d ∷ answers) = (if leb d limit then 1 else 0) + answered_fast answers

abbrev pub IsAnswered : Answer → Type 0
IsAnswered failed = ⊥
IsAnswered (after d) = Unit

abbrev AreAbove : ℕ → List ℕ → Type 0
AreAbove x xs = All (λ y. x ≤ y) xs

abbrev IsAscending : List ℕ → Type 0
IsAscending [] = Unit
IsAscending (x ∷ xs) = AreAbove x xs × IsAscending xs

-- A number that is there, within the limit.
abbrev is_within : Option ℕ → Bool
is_within none = false
is_within (some p) = leb p limit

-- What the goroutines leave behind the tally that they find.
record IsTallied (answers : List Answer) (t u : Tally) : Type 0 where
  counted : length u.durations + u.failures ≡ length t.durations + t.failures + length answers
  near : fast u.durations ≡ fast t.durations + answered_fast answers
  clean : (u.failures ≡ 0) ↔ ((t.failures ≡ 0) × All IsAnswered answers)
