-- ===== src/Tests/Load.antt =====
-- The load test's verdict on three answers.
use flooks.Common.{◌≡◌, refl, true, List, [], ◌∷◌}
use flooks.LoadTest.{Answer, after, passed, main, tally, measure, sort, insert, at}

abbrev three : List Answer
three = after 400000000 ∷ after 2000000 ∷ after 499999999 ∷ []

three_pass : main (true ∷ []) three ≡ passed
unfolding main tally measure sort insert at
three_pass = refl
