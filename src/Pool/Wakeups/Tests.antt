-- ===== src/Pool/Wakeups/Tests.antt =====
-- Small pools, step by step.
use mtasc.Common.{◌≡◌, refl, List, [], ◌∷◌, map, true, false, arith}
use mtasc.Pool.{async_task_ret, is_joined, reads_count, reads_queue}
use mtasc.Pool.Wakeups.{
  Place, locking, testing, emptied, to_worker, busy, Guarded, begin, turn, test_tasks, post, count,
  posts_ret, notifies_none, turns, Reachable, started, next,
}
use mtasc.Pool.Wakeups.Heard.{IsHeard, Reachable-IsHeard}
use mtasc.Pool.Wakeups.Progress.{GoesOn, Reachable-GoesOn}
use mtasc.Pool.Wakeups.Torn.{Later, reads_count-reads_queue}
use mtasc.Pool.Wakeups.Lost.{IsLost, post_loses_notification}
use mtasc.Pool.Wakeups.Hangs.{AllStuck, stop_can_hang}

-- One worker, at rest.
abbrev idle : Guarded
idle = record {
  shared = record { tasks = []; running_count = 0; stop = false; submitted = []; executed = [] };
  locked = false;
  notifying = 0;
  alarms = 0;
}

abbrev held : Guarded
held = record idle { locked = true }

-- The worker holds the mutex and has found no task.
one_emptied : Reachable true 1 (emptied ∷ [], held)
unfolding begin turn test_tasks
one_emptied =
    next _ _ (next _ _ started (turns [] locking [] idle testing held refl))
      (turns [] testing [] held emptied held refl)

reads_count-reads_queue_example :
    (g : Guarded) × Later false (locking ∷ [], idle) (busy 7 ∷ [], g)
    × (reads_queue g.shared ≡ true)
    × (g.shared.running_count ≡ 1)
unfolding reads_count
reads_count-reads_queue_example = reads_count-reads_queue 7 [] [] idle refl refl refl

post_loses_notification_example : (g : Guarded) × IsLost true 1 7 [] [] held g
unfolding count
post_loses_notification_example = post_loses_notification 1 7 [] [] held one_emptied refl

stop_can_hang_example :
    (ws : List Place) × (g : Guarded) × Reachable false 3 (ws, g)
    × (g.shared.stop ≡ true)
    × (g.shared.tasks ≡ [])
    × (g.notifying ≡ 0)
    × (g.alarms ≡ 0)
    × AllStuck g ws
    × (is_joined (map to_worker ws) ≡ false)
stop_can_hang_example = stop_can_hang false 2

-- A task of `asyncTaskret`, taken before its `notify_one`.
abbrev taken : Guarded
taken = record idle {
  shared = record {
    tasks = [];
    running_count = 1;
    stop = false;
    submitted = 7 ∷ [];
    executed = [];
  };
  notifying = 1;
}

abbrev queued : Guarded
queued = record taken { shared = record taken.shared { tasks = 7 ∷ [] } }

one_taken : Reachable false 1 (busy 7 ∷ [], taken)
unfolding begin turn test_tasks post async_task_ret
one_taken =
    next _ _
      (next _ _ (next _ _ started (posts_ret (locking ∷ []) idle 7 refl))
        (turns [] locking [] queued testing (record queued { locked = true }) refl))
      (turns [] testing [] (record queued { locked = true }) (busy 7) taken refl)

Reachable-IsHeard_example : IsHeard 1 (busy 7 ∷ []) taken
Reachable-IsHeard_example = Reachable-IsHeard 1 (busy 7 ∷ [], taken) (omega arith) one_taken

-- A task that is queued, while the worker has not asked for the mutex yet.
one_queued : Reachable false 1 (locking ∷ [], record queued { notifying = 0 })
unfolding begin post async_task_ret count
one_queued =
    next _ _ (next _ _ started (posts_ret (locking ∷ []) idle 7 refl))
      (notifies_none (locking ∷ []) queued 0 refl refl)

Reachable-GoesOn_example : GoesOn (locking ∷ []) (record queued { notifying = 0 })
Reachable-GoesOn_example =
    Reachable-GoesOn 1 (locking ∷ [], record queued { notifying = 0 }) (omega arith) one_queued refl
      refl refl
