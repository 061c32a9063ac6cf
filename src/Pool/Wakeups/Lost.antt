-- ===== src/Pool/Wakeups/Lost.antt =====
-- A `notify_one` of `asyncTaskvoid` that finds no worker, just before one waits for it.
use mtasc.Common.{ℕ, ◌≡◌, refl, List, [], ◌∷◌, ◌++◌, Bool, true, false, none, arith}
use mtasc.Pool.{async_task}
use mtasc.Pool.Wakeups.Holders.{emptied_alone}
use mtasc.Pool.Wakeups.{
  Place, emptied, blocked, Guarded, turn, post, is_blocked, count, posts, notifies_none, turns,
  Reachable, next,
}

-- What is left of a lost notification: the worker is blocked, the others stand where they stood,
-- the queue has the task, and no notification has been added to those that were to come.
pub record IsLost (void_used : Bool) (n t : ℕ) (front back : List Place) (g g' : Guarded)
    : Type 0 where
  pub is_reached : Reachable void_used n (front ++ blocked ∷ back, g')
  pub task_queued : g'.shared.tasks ≡ g.shared.tasks ++ t ∷ []
  pub no_notification : (g'.notifying ≡ g.notifying) × (g'.alarms ≡ g.alarms)
  pub mutex_free : g'.locked ≡ false
  pub goes_nowhere : turn blocked g' ≡ none

-- Wherever a worker has found no task and has not blocked yet, while no other is blocked, a task
-- that `asyncTaskvoid` pushes can lose its notification: since it does not take the mutex that the
-- worker holds, its section and its `notify_one` both fit in before the worker blocks. Then the
-- worker is blocked and cannot go on, the mutex is free, the task is in the queue, and no
-- notification is to come that was not to come before.
pub post_loses_notification :
    (n t : ℕ) (front back : List Place) (g : Guarded)
    → Reachable true n (front ++ emptied ∷ back, g)
    → count is_blocked (front ++ emptied ∷ back) ≡ 0
    → (g' : Guarded) × IsLost true n t front back g g'
unfolding turn post async_task
post_loses_notification n t front back g h free =
    let pushed : Guarded = post (async_task t g.shared) g in
    let missed : Guarded = record pushed { notifying = g.notifying } in
    let after : Guarded = record missed { locked = false } in
    let ws : List Place = front ++ emptied ∷ back in
    (
      after,
      record {
        is_reached =
            next _ _
              (next _ _ (next _ _ h (posts ws g t refl (emptied_alone true n front back g h)))
                (notifies_none ws pushed g.notifying (omega arith) free))
              (turns front emptied back missed blocked after refl);
        task_queued = refl;
        no_notification = (refl, refl);
        mutex_free = refl;
        goes_nowhere = refl;
      },
    )
