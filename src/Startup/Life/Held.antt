-- ===== src/Startup/Life/Held.antt =====
-- The connections of the pools that are out while the process runs and ends.
use flooks.Common.{
  ℕ, ◌+◌, ◌≡◌, ◌⊎◌, inl, inr, refl, sym, subst, Bool, true, false, List, [], ◌∷◌, Any, arith,
}
use flooks.Startup.Life.{
  Stage, closing, ended, Cleanup, close_metadata, close_analytics, cancel, Life, serving,
  IsDeferred, IsFree, Step, interrupt, listen_fails, accept, answer, take_metadata, give_metadata,
  take_analytics, give_analytics, undispatch, wake, unlisten, drained, expired, clean, return,
  Steps, here, next,
}

-- A connection is out only of a pool that is still to be closed.
pub record IsHeld (s : Life) : Type 0 where
  pub metadata : IsDeferred close_metadata s ⊎ (s.metadata ≡ 0)
  pub analytics : IsDeferred close_analytics s ⊎ (s.analytics ≡ 0)

-- The next call is run, if it need not wait.
cleaned :
    (pool c : Cleanup) (rest : List Cleanup) (s : Life) (out : ℕ)
    → (c ≡ pool → out ≡ 0)
    → s.deferred ≡ c ∷ rest
    → IsDeferred pool s ⊎ (out ≡ 0)
    → Any (λ d. d ≡ pool) rest ⊎ (out ≡ 0)
cleaned pool c rest s out free d (inr none_out) = inr none_out
cleaned pool c rest s out free d (inl there) = either (subst (Any (λ x. x ≡ pool)) d there)
  where
    either : Any (λ x. x ≡ pool) (c ∷ rest) → Any (λ x. x ≡ pool) rest ⊎ (out ≡ 0)
    either (inl this) = inr (free this)
    either (inr later) = inl later

given :
    (pool : Cleanup) (s : Life) (out n : ℕ)
    → out ≡ n + 1
    → IsDeferred pool s ⊎ (out ≡ 0)
    → IsDeferred pool s ⊎ (n ≡ 0)
given pool s out n h (inl there) = inl there
given pool s out n h (inr none_out) = absurd (omega arith)

later :
    (pool : Cleanup) (s : Life) (out : ℕ)
    → IsDeferred pool s ⊎ (out ≡ 0)
    → Any (λ x. x ≡ pool) (cancel ∷ s.deferred) ⊎ (out ≡ 0)
later pool s out (inl there) = inl (inr there)
later pool s out (inr none_out) = inr none_out

-- The rest of the state does not matter.
beside-IsHeld :
    (s : Life) (main : Stage) (listening done dispatching : Bool) (requests : ℕ)
    → IsHeld s
    → IsHeld (record s {
      main = main;
      listening = listening;
      done = done;
      dispatching = dispatching;
      requests = requests;
    })
beside-IsHeld s main listening done dispatching requests h = record {
  metadata = h.metadata;
  analytics = h.analytics;
}

Step-IsHeld : (s t : Life) → Step s t → IsHeld s → IsHeld t
Step-IsHeld s t (interrupt e) h =
    subst IsHeld (sym e) (beside-IsHeld s s.main s.listening true s.dispatching s.requests h)
Step-IsHeld s t (listen_fails l e) h =
    subst IsHeld (sym e) (beside-IsHeld s s.main false true s.dispatching s.requests h)
Step-IsHeld s t (accept l e) h =
    subst IsHeld (sym e)
      (beside-IsHeld s s.main s.listening s.done s.dispatching (s.requests + 1) h)
Step-IsHeld s t (answer n r e) h =
    subst IsHeld (sym e) (beside-IsHeld s s.main s.listening s.done s.dispatching n h)
Step-IsHeld s t (undispatch d e) h =
    subst IsHeld (sym e) (beside-IsHeld s s.main s.listening s.done false s.requests h)
Step-IsHeld s t (take_metadata d e) h =
    subst IsHeld (sym e) (record { metadata = inl d; analytics = h.analytics })
Step-IsHeld s t (give_metadata n d e) h = subst IsHeld (sym e) (record {
  metadata = given close_metadata s s.metadata n d h.metadata;
  analytics = h.analytics;
})
Step-IsHeld s t (take_analytics d e) h =
    subst IsHeld (sym e) (record { metadata = h.metadata; analytics = inl d })
Step-IsHeld s t (give_analytics n d e) h = subst IsHeld (sym e) (record {
  metadata = h.metadata;
  analytics = given close_analytics s s.analytics n d h.analytics;
})
Step-IsHeld s t (wake m d e) h = subst IsHeld (sym e) (record {
  metadata = later close_metadata s s.metadata h.metadata;
  analytics = later close_analytics s s.analytics h.analytics;
})
Step-IsHeld s t (unlisten m e) h =
    subst IsHeld (sym e) (beside-IsHeld s s.main false s.done s.dispatching s.requests h)
Step-IsHeld s t (drained m l r e) h =
    subst IsHeld (sym e) (beside-IsHeld s closing s.listening s.done s.dispatching s.requests h)
Step-IsHeld s t (expired m l e) h =
    subst IsHeld (sym e) (beside-IsHeld s closing s.listening s.done s.dispatching s.requests h)
Step-IsHeld s t (clean c rest m d f e) h = subst IsHeld (sym e) (record {
  metadata =
      cleaned close_metadata c rest s s.metadata (λ k. subst (λ x. IsFree x s) k f) d h.metadata;
  analytics =
      cleaned close_analytics c rest s s.analytics (λ k. subst (λ x. IsFree x s) k f) d h.analytics;
})
Step-IsHeld s t (return m d e) h =
    subst IsHeld (sym e) (beside-IsHeld s ended s.listening s.done s.dispatching s.requests h)

pub Steps-IsHeld : (s : Life) → Steps serving s → IsHeld s
Steps-IsHeld s here = record { metadata = inr refl; analytics = inr refl }
Steps-IsHeld s (next before step) = Step-IsHeld _ s step (Steps-IsHeld _ before)

-- Where nothing is to be closed, no connection is out.
pub none_held :
    (pool : Cleanup) (s : Life) (out : ℕ)
    → s.deferred ≡ []
    → IsDeferred pool s ⊎ (out ≡ 0)
    → out ≡ 0
none_held pool s out d (inl there) = absurd (subst (Any (λ x. x ≡ pool)) d there)
none_held pool s out d (inr none_out) = none_out
