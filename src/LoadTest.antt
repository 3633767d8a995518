-- ===== src/LoadTest.antt =====
-- tools/loadtest/main.go: the tool that opens streams, sends queries side by side, and judges how long
-- the answers took.
pub mod Percentile
use flooks.Common.{
  ℕ, zero, suc, ◌+◌, ◌*◌, ◌/◌, Bool, true, false, ◌&&◌, ◌||◌, not, Option, none, some, List, [],
  ◌∷◌, ◌++◌, length, leb, ltb, if◌then◌else◌,
}

-- How a query ended: with a failure, or with the status 200 after so many nanoseconds.
pub data Answer : Type 0 where
  failed : Answer
  after : ℕ → Answer

-- How the tool ends: with a panic, or with a status of the process.
pub data Verdict : Type 0 where
  panicked passed rejected : Verdict

-- What the goroutines share, under their lock.
pub record Tally : Type 0 where
  pub durations : List ℕ
  pub failures : ℕ

-- What each goroutine writes at its end, in the order in which they take the lock.
unfoldable pub tally : List Answer → Tally → Tally
tally [] t = t
tally (failed ∷ answers) t = tally answers (record t { failures = t.failures + 1 })
tally (after d ∷ answers) t = tally answers (record t { durations = t.durations ++ d ∷ [] })

-- `slices.Sort`
unfoldable pub insert : ℕ → List ℕ → List ℕ
insert x [] = x ∷ []
insert x (y ∷ ys) = if leb x y then x ∷ y ∷ ys else y ∷ insert x ys

unfoldable pub sort : List ℕ → List ℕ
unfolding insert
sort [] = []
sort (x ∷ xs) = insert x (sort xs)

-- `xs[index]`; `none` is an index out of range.
unfoldable pub at : ℕ → List ℕ → Option ℕ
at index [] = none
at zero (x ∷ xs) = some x
at (suc index) (x ∷ xs) = at index xs

-- 500 * time.Millisecond
abbrev pub limit : ℕ
limit = 500000000

abbrev pub judge : ℕ → Option ℕ → Verdict
judge failures none = panicked
judge failures (some p95) = if ltb 0 failures || ltb limit p95 then rejected else passed

unfoldable pub measure : Tally → Verdict
unfolding sort at
measure t = judge t.failures (at (length t.durations * 95 / 100) (sort t.durations))

-- The loop that opens the streams: each was answered with the status 200, or the tool panics.
abbrev pub all_open : List Bool → Bool
all_open [] = true
all_open (opened ∷ rest) = opened && all_open rest

-- `main`
unfoldable pub main : List Bool → List Answer → Verdict
unfolding tally measure
main streams answers =
    if all_open streams
    then measure (tally answers (record { durations = []; failures = 0 }))
    else panicked
