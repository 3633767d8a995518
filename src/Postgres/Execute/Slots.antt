-- ===== src/Postgres/Execute/Slots.antt =====
-- internal/connector/postgres/postgres.go: the semaphore of the connector, a buffered channel that
-- each call of `Execute` sends to at its start and receives from at its end. The calls of a connector
-- run side by side, in any order of their steps.
use flooks.Common.{
  ℕ, ◌+◌, ◌-◌, ◌≤◌, ◌≡◌, refl, ap, ◌⊎◌, inl, inr, Bool-cases, Option, none, some, List, [], ◌∷◌,
  ◌++◌, ltb, arith, if◌then◌else◌,
}

-- A call waits in the `select`, runs with a slot, or has returned.
pub data Call : Type 0 where
  waiting running returned : Call

-- The calls so far, and the number of values in the channel's buffer.
pub record Slots : Type 0 where
  pub calls : List Call
  pub used : ℕ

-- `New`
abbrev pub no_calls : Slots
no_calls = record { calls = []; used = 0 }

-- A send to a channel of this capacity; `none` if it has to wait.
unfoldable pub acquire : ℕ → ℕ → Option ℕ
acquire capacity used = if ltb used capacity then some (used + 1) else none

-- A receive, for which there is a value while a call runs.
unfoldable pub release : ℕ → ℕ
release used = used - 1

-- One call arrives, gets a slot, gives up as its context is done, or returns from its query, however
-- that went: the deferred receive runs on every path.
pub data Step (capacity : ℕ) (s : Slots) (t : Slots) : Type 0 where
  arrive : t ≡ record s { calls = waiting ∷ s.calls } → Step capacity s t
  enter :
      (before after : List Call) (used : ℕ)
      → s.calls ≡ before ++ waiting ∷ after
      → acquire capacity s.used ≡ some used
      → t ≡ record { calls = before ++ running ∷ after; used = used }
      → Step capacity s t
  give_up :
      (before after : List Call)
      → s.calls ≡ before ++ waiting ∷ after
      → t ≡ record s { calls = before ++ returned ∷ after }
      → Step capacity s t
  leave :
      (before after : List Call)
      → s.calls ≡ before ++ running ∷ after
      → t ≡ record { calls = before ++ returned ∷ after; used = release s.used }
      → Step capacity s t

pub data Reach (capacity : ℕ) : Slots → Type 0 where
  here : Reach capacity no_calls
  next : {s t : Slots} → Reach capacity s → Step capacity s t → Reach capacity t

abbrev pub slots_of : Call → ℕ
slots_of waiting = 0
slots_of running = 1
slots_of returned = 0

-- How many calls run.
unfoldable pub running_calls : List Call → ℕ
running_calls [] = 0
running_calls (c ∷ cs) = slots_of c + running_calls cs

running_calls-append :
    (before : List Call) (c : Call) (after : List Call)
    → running_calls (before ++ c ∷ after) ≡ running_calls before + slots_of c + running_calls after
unfolding running_calls
running_calls-append [] c after = omega arith
running_calls-append (b ∷ before) c after = omega (arith, running_calls-append before c after)

pub record IsCounted (capacity : ℕ) (s : Slots) : Type 0 where
  pub counted : s.used ≡ running_calls s.calls
  pub bounded : s.used ≤ capacity

Step-IsCounted :
    (capacity : ℕ) (s t : Slots) → Step capacity s t → IsCounted capacity s → IsCounted capacity t
unfolding acquire release running_calls
Step-IsCounted k s t (arrive e) c = ground (arith, c.counted, c.bounded)
Step-IsCounted k s t (enter before after used at got e) c = ground (
  arith,
  running_calls-append before waiting after,
  running_calls-append before running after,
  ap running_calls at,
)
Step-IsCounted k s t (give_up before after at e) c = ground (
  arith,
  running_calls-append before waiting after,
  running_calls-append before returned after,
  ap running_calls at,
)
Step-IsCounted k s t (leave before after at e) c = ground (
  arith,
  running_calls-append before running after,
  running_calls-append before returned after,
  ap running_calls at,
)

Reach-IsCounted : (capacity : ℕ) (s : Slots) → Reach capacity s → IsCounted capacity s
unfolding running_calls
Reach-IsCounted k s here = record { counted = refl; bounded = omega arith }
Reach-IsCounted k s (next r st) = Step-IsCounted k _ s st (Reach-IsCounted k _ r)

-- Whatever the order of the calls' steps, no more calls run than the connector was made for; the
-- receive of a call that runs finds a value; and a call that waits can go on unless as many run as
-- may: no call that has returned holds a slot.
pub Reach-slots :
    (capacity : ℕ) (s : Slots)
    → Reach capacity s
    → (running_calls s.calls ≤ capacity)
      × ((before after : List Call) → s.calls ≡ before ++ running ∷ after → 1 ≤ s.used)
      × ((running_calls s.calls ≡ capacity) ⊎ ((used : ℕ) × (acquire capacity s.used ≡ some used)))
unfolding acquire
Reach-slots k s r =
    let c = Reach-IsCounted k s r in
    (
      omega (arith, c.counted, c.bounded),
      λ before after at.
          omega (arith, c.counted, running_calls-append before running after, ap running_calls at),
      elim (Bool-cases (ltb s.used k)) [
        | inl free ↦ inr (s.used + 1, rw free)
        | inr full ↦ inl (ground (arith, c.counted, c.bounded))
      ],
    )
