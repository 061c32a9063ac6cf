-- ===== src/Pool/Wakeups/Hangs.antt =====
-- A stop that a worker misses.
use mathlib.Core.Path.{subst}
use mtasc.Common.{
  ℕ, zero, suc, ◌≡◌, refl, sym, ap, List, [], ◌∷◌, ◌++◌, append_assoc, replicate, Bool, true, false,
  none, map,
}
use mtasc.Pool.{stop_pool, is_joined}
use mtasc.Pool.Wakeups.{
  Place, locking, testing, emptied, blocked, gone, Guarded, begin, turn, test_tasks, stop_threads,
  to_worker, wake, stops, notifies_all, turns, Reachable, started, next,
}

-- No worker can go on by itself.
abbrev pub AllStuck : Guarded → List Place → Type 0
AllStuck g [] = Unit {0}
AllStuck g (w ∷ ws) = (turn w g ≡ none) × AllStuck g ws

-- The pool after a stop, with no task ever submitted.
abbrev stopped : Guarded
stopped = record {
  shared = record { tasks = []; running_count = 0; stop = true; submitted = []; executed = [] };
  locked = false;
  notifying = 0;
  alarms = 0;
}

module _ (void_used : Bool) (n : ℕ) where
  -- A worker behind the stop leaves.
  one_leaves :
      (front back : List Place)
      → Reachable void_used n (front ++ locking ∷ back, stopped)
      → Reachable void_used n (front ++ gone ∷ back, stopped)
  unfolding turn test_tasks
  one_leaves front back h =
      let held : Guarded = record stopped { locked = true } in
      next _ _ (next _ _ h (turns front locking back stopped testing held refl))
        (turns front testing back held gone stopped refl)

  others_leave :
      (front : List Place) (m : ℕ)
      → Reachable void_used n (front ++ replicate m locking, stopped)
      → Reachable void_used n (front ++ replicate m gone, stopped)
  others_leave front zero h = h
  others_leave front (suc m) h =
      subst (λ ws. Reachable void_used n (ws, stopped))
        (append_assoc front (gone ∷ []) (replicate m gone))
        (others_leave (front ++ gone ∷ []) m (
          subst (λ ws. Reachable void_used n (ws, stopped))
            (sym (append_assoc front (gone ∷ []) (replicate m locking)))
            (one_leaves front (replicate m locking) h)))

wake_locking : (n : ℕ) → map wake (replicate n locking) ≡ replicate n locking
unfolding wake
wake_locking zero = refl
wake_locking (suc n) = ap (◌∷◌ locking) (wake_locking n)

-- The first worker finds no task, then the pool is stopped and all are notified.
missed_stop :
    (void_used : Bool) (n : ℕ)
    → Reachable void_used (suc n) (blocked ∷ replicate n locking, stopped)
unfolding begin turn test_tasks stop_threads stop_pool wake
missed_stop void_used n =
    let waiting : List Place = replicate n locking in
    let idle : Guarded = (begin (suc n)).1 in
    let held : Guarded = record idle { locked = true } in
    let told : Guarded = stop_threads held in
    let missed : Guarded = record told { alarms = 0 } in
    let found : Reachable void_used (suc n) (emptied ∷ waiting, held) =
      next _ _ (next _ _ started (turns [] locking waiting idle testing held refl))
        (turns [] testing waiting held emptied held refl) in
    let heard : Reachable void_used (suc n) (emptied ∷ map wake waiting, missed) =
      next _ _ (next _ _ found (stops (emptied ∷ waiting) held))
        (notifies_all (emptied ∷ waiting) told 0 refl) in
    next _ _
      (subst (λ ws. Reachable void_used (suc n) (emptied ∷ ws, missed)) (wake_locking n) heard)
      (turns [] emptied waiting missed blocked stopped refl)

gone-AllStuck : (g : Guarded) (n : ℕ) → AllStuck g (replicate n gone)
unfolding turn
gone-AllStuck g zero = tt
gone-AllStuck g (suc n) = (refl, gone-AllStuck g n)

-- A stop can hang, with any number of workers and without any task: `M_stop` is set and all are
-- notified while a worker has found no task and has not blocked yet, since neither takes the mutex
-- that it holds. In a state that the pool reaches in this way it is stopped, nothing is queued, no
-- notification is to come, no worker can go on by itself, and the joins of `waitAllthread` and of
-- the destructor have not all returned.
pub stop_can_hang :
    (void_used : Bool) (n : ℕ)
    → (ws : List Place) × (g : Guarded) × Reachable void_used (suc n) (ws, g)
      × (g.shared.stop ≡ true)
      × (g.shared.tasks ≡ [])
      × (g.notifying ≡ 0)
      × (g.alarms ≡ 0)
      × AllStuck g ws
      × (is_joined (map to_worker ws) ≡ false)
unfolding turn is_joined to_worker
stop_can_hang void_used n = (
  blocked ∷ replicate n gone,
  stopped,
  others_leave void_used (suc n) (blocked ∷ []) n (missed_stop void_used n),
  refl,
  refl,
  refl,
  refl,
  (refl, gone-AllStuck stopped n),
  refl,
)
