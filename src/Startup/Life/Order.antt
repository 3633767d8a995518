-- ===== src/Startup/Life/Order.antt =====
-- The order of the end of the process: what each step keeps.
use flooks.Common.{ℕ, ◌+◌, ◌≡◌, ◌≢◌, refl, sym, subst, ap, Bool, true, false, [], ◌∷◌}
use flooks.Startup.Life.{
  waiting, draining, closing, ended, cancel, Life, acquired, serving, Step, interrupt, listen_fails,
  accept, answer, take_metadata, give_metadata, take_analytics, give_analytics, undispatch, wake,
  unlisten, drained, expired, clean, return, Steps, here, next,
}

-- The server takes connections only while the pools and Redis are open, and what is deferred runs once
-- the context is done; the process ends with all of it run.
pub record IsOrderly (s : Life) : Type 0 where
  pub opened : s.main ≡ waiting → s.deferred ≡ acquired
  pub still_open : s.main ≡ draining → s.deferred ≡ cancel ∷ acquired
  pub told : s.main ≢ waiting → s.done ≡ true
  pub closed : s.main ≡ closing → s.listening ≡ false
  pub over : s.main ≡ ended → (s.deferred ≡ []) × (s.listening ≡ false)

beside_main :
    (s : Life) (dispatching : Bool) (requests metadata analytics : ℕ)
    → IsOrderly s
    → IsOrderly (record s {
      dispatching = dispatching;
      requests = requests;
      metadata = metadata;
      analytics = analytics;
    })
beside_main s dispatching requests metadata analytics h = record {
  opened = h.opened;
  still_open = h.still_open;
  told = h.told;
  closed = h.closed;
  over = h.over;
}

Step-IsOrderly : (s t : Life) → Step s t → IsOrderly s → IsOrderly t
Step-IsOrderly s t (interrupt e) h = subst IsOrderly (sym e) (record {
  opened = h.opened;
  still_open = h.still_open;
  told = λ k. refl;
  closed = h.closed;
  over = h.over;
})
Step-IsOrderly s t (listen_fails l e) h = subst IsOrderly (sym e) (record {
  opened = h.opened;
  still_open = h.still_open;
  told = λ k. refl;
  closed = λ k. refl;
  over = λ k. ((h.over k).0, refl);
})
Step-IsOrderly s t (accept l e) h =
    subst IsOrderly (sym e) (beside_main s s.dispatching (s.requests + 1) s.metadata s.analytics h)
Step-IsOrderly s t (answer n r e) h =
    subst IsOrderly (sym e) (beside_main s s.dispatching n s.metadata s.analytics h)
Step-IsOrderly s t (undispatch d e) h =
    subst IsOrderly (sym e) (beside_main s false s.requests s.metadata s.analytics h)
Step-IsOrderly s t (take_metadata d e) h =
    subst IsOrderly (sym e) (beside_main s s.dispatching s.requests (s.metadata + 1) s.analytics h)
Step-IsOrderly s t (give_metadata n d e) h =
    subst IsOrderly (sym e) (beside_main s s.dispatching s.requests n s.analytics h)
Step-IsOrderly s t (take_analytics d e) h =
    subst IsOrderly (sym e) (beside_main s s.dispatching s.requests s.metadata (s.analytics + 1) h)
Step-IsOrderly s t (give_analytics n d e) h =
    subst IsOrderly (sym e) (beside_main s s.dispatching s.requests s.metadata n h)
Step-IsOrderly s t (wake m d e) h = subst IsOrderly (sym e) (record {
  opened = λ k. cc;
  still_open = λ k. ap (λ l. cancel ∷ l) (h.opened m);
  told = λ k. d;
  closed = λ k. cc;
  over = λ k. cc;
})
Step-IsOrderly s t (unlisten m e) h = subst IsOrderly (sym e) (record {
  opened = h.opened;
  still_open = h.still_open;
  told = h.told;
  closed = λ k. refl;
  over = λ k. ((h.over k).0, refl);
})
Step-IsOrderly s t (drained m l r e) h = subst IsOrderly (sym e) (record {
  opened = λ k. cc;
  still_open = λ k. cc;
  told = λ k. h.told (λ n. cc);
  closed = λ k. l;
  over = λ k. cc;
})
Step-IsOrderly s t (expired m l e) h = subst IsOrderly (sym e) (record {
  opened = λ k. cc;
  still_open = λ k. cc;
  told = λ k. h.told (λ n. cc);
  closed = λ k. l;
  over = λ k. cc;
})
Step-IsOrderly s t (clean c rest m d f e) h = subst IsOrderly (sym e) (record {
  opened = λ k. cc;
  still_open = λ k. cc;
  told = h.told;
  closed = h.closed;
  over = λ k. cc;
})
Step-IsOrderly s t (return m d e) h = subst IsOrderly (sym e) (record {
  opened = λ k. cc;
  still_open = λ k. cc;
  told = λ k. h.told (λ n. cc);
  closed = λ k. cc;
  over = λ k. (d, h.closed m);
})

serving-IsOrderly : IsOrderly serving
serving-IsOrderly = record {
  opened = λ k. refl;
  still_open = λ k. cc;
  told = λ k. absurd (k refl);
  closed = λ k. cc;
  over = λ k. cc;
}

pub Steps-IsOrderly : (s : Life) → Steps serving s → IsOrderly s
Steps-IsOrderly s here = serving-IsOrderly
Steps-IsOrderly s (next before step) = Step-IsOrderly _ s step (Steps-IsOrderly _ before)
