-- ===== src/Startup/Life/Laws.antt =====
-- What is open while the process runs, and that it can come to its end.
use flooks.Common.{◌≡◌, true, false, [], ◌∷◌}
use flooks.Startup.Life.{Stage, waiting, draining, closing, ended, cancel, Life, acquired, Steps}

-- What is open at each stage, and what is closed with no connection out.
abbrev pub IsOpen : Life → Stage → Type 0
IsOpen s waiting = s.deferred ≡ acquired
IsOpen s draining = (s.deferred ≡ cancel ∷ acquired) × (s.done ≡ true)
IsOpen s closing = (s.listening ≡ false) × (s.done ≡ true)
IsOpen s ended =
    (s.deferred ≡ [])
    × (s.listening ≡ false)
    × (s.done ≡ true)
    × (s.metadata ≡ 0)
    × (s.analytics ≡ 0)

-- A way to the end, with all that was deferred run.
abbrev pub Ends : Life → Type 0
Ends s = (t : Life) × Steps s t × (t.main ≡ ended) × (t.deferred ≡ [])
