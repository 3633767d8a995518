-- ===== src/Startup/Life.antt =====
-- cmd/api/main.go: `main` from `ListenAndServe` to its end, with the signals, the requests and the
-- dispatcher beside it, in any order of their steps.
pub mod Order
pub mod Held
pub mod Laws
use flooks.Common.{
  ℕ, zero, suc, ◌+◌, ◌≡◌, ◌≢◌, ◌⊎◌, inl, inr, refl, sym, subst, ap, Bool, true, false, List, [],
  ◌∷◌, Any, arith,
}

-- `main` waits for the context, shuts the server down, runs what it deferred, or has returned.
pub data Stage : Type 0 where
  waiting draining closing ended : Stage

-- What `main` defers.
pub data Cleanup : Type 0 where
  stop close_metadata close_analytics close_redis cancel : Cleanup

-- `listening` is whether the server takes connections, `done` whether the context is done, `deferred`
-- what is still to be run, the latest first, `requests` how many handlers run, `metadata` and `analytics`
-- how many connections of the pools are out.
pub record Life : Type 0 where
  pub main : Stage
  pub listening : Bool
  pub done : Bool
  pub deferred : List Cleanup
  pub dispatching : Bool
  pub requests : ℕ
  pub metadata : ℕ
  pub analytics : ℕ

-- What was deferred by the time that the server listens.
abbrev pub acquired : List Cleanup
acquired = close_redis ∷ close_analytics ∷ close_metadata ∷ stop ∷ []

abbrev pub serving : Life
serving = record {
  main = waiting;
  listening = true;
  done = false;
  deferred = acquired;
  dispatching = true;
  requests = 0;
  metadata = 0;
  analytics = 0;
}

-- What is still to be run.
abbrev pub IsDeferred : Cleanup → Life → Type 0
IsDeferred c s = Any (λ d. d ≡ c) s.deferred

-- `Close` of a pool waits until each of its connections is back; the other calls do not wait.
abbrev pub IsFree : Cleanup → Life → Type 0
IsFree close_metadata s = s.metadata ≡ 0
IsFree close_analytics s = s.analytics ≡ 0
IsFree stop s = Unit
IsFree close_redis s = Unit
IsFree cancel s = Unit

-- A signal; an error of `ListenAndServe`, which calls `stop`; a request, and its end; the end of the
-- dispatcher; a handler or the dispatcher takes a connection of a pool that is not closed, and gives it
-- back. Then `main`: the context is done; `Shutdown` closes the listener, and returns once no
-- handler runs, or after its ten seconds; the deferred calls; the return.
pub data Step (s : Life) (t : Life) : Type 0 where
  interrupt : t ≡ record s { done = true } → Step s t
  listen_fails : s.listening ≡ true → t ≡ record s { listening = false; done = true } → Step s t
  accept : s.listening ≡ true → t ≡ record s { requests = s.requests + 1 } → Step s t
  answer : (n : ℕ) → s.requests ≡ n + 1 → t ≡ record s { requests = n } → Step s t
  take_metadata :
      IsDeferred close_metadata s → t ≡ record s { metadata = s.metadata + 1 } → Step s t
  give_metadata : (n : ℕ) → s.metadata ≡ n + 1 → t ≡ record s { metadata = n } → Step s t
  take_analytics :
      IsDeferred close_analytics s → t ≡ record s { analytics = s.analytics + 1 } → Step s t
  give_analytics : (n : ℕ) → s.analytics ≡ n + 1 → t ≡ record s { analytics = n } → Step s t
  undispatch : s.done ≡ true → t ≡ record s { dispatching = false } → Step s t
  wake :
      s.main ≡ waiting
      → s.done ≡ true
      → t ≡ record s { main = draining; deferred = cancel ∷ s.deferred }
      → Step s t
  unlisten : s.main ≡ draining → t ≡ record s { listening = false } → Step s t
  drained :
      s.main ≡ draining
      → s.listening ≡ false
      → s.requests ≡ 0
      → t ≡ record s { main = closing }
      → Step s t
  expired : s.main ≡ draining → s.listening ≡ false → t ≡ record s { main = closing } → Step s t
  clean :
      (c : Cleanup) (rest : List Cleanup)
      → s.main ≡ closing
      → s.deferred ≡ c ∷ rest
      → IsFree c s
      → t ≡ record s { deferred = rest }
      → Step s t
  return : s.main ≡ closing → s.deferred ≡ [] → t ≡ record s { main = ended } → Step s t

pub data Steps (s : Life) : Life → Type 0 where
  here : Steps s s
  next : {t u : Life} → Steps s t → Step t u → Steps s u
