-- ===== src/Pool/Wakeups/Heard.antt =====
-- No notification is lost while tasks are pushed under the mutex of the wait.
use mtasc.Common.{
  subst_some, ℕ, suc, ◌+◌, ◌<◌, ◌≡◌, refl, List, [], ◌∷◌, ◌++◌, map, length, length-replicate, Bool,
  true, false, if◌then◌else◌, none, some, ◌⊎◌, arith,
}
use mtasc.Pool.{no_tasks, async_task_ret, stop_pool}
use mtasc.Pool.Wakeups.Counts.{
  is_awake, is_emptied, is_holder, is_gone, count-append, count_all, emptied_holders, length-place,
  length-wake, count-wake, all_locking,
}
use mtasc.Pool.Wakeups.{
  Place, locking, testing, emptied, blocked, busy, finishing, gone, Guarded, Threads, begin, turn,
  test_tasks, run_task, count_down, count_off, post, stop_threads, wake, bit, count, is_blocked,
  Step, posts, posts_ret, stops, notifies_one, notifies_none, notifies_all, wakes, counts, turns,
  Reachable, started, next,
}

-- At most one worker holds the mutex, none has left a pool that is not stopped, one that has found
-- no task is right, and a task in the queue has a worker that is awake or a notification to come.
pub record IsHeard (n : ℕ) (ws : List Place) (g : Guarded) : Type 0 where
  pub size : length ws ≡ n
  pub one_holder : count is_holder ws ≡ bit g.locked
  pub none_left : (count is_gone ws ≡ 0) ⊎ (g.shared.stop ≡ true)
  pub found_none : (count is_emptied ws ≡ 0) ⊎ (no_tasks g.shared.tasks ≡ true)
  pub heard :
      (no_tasks g.shared.tasks ≡ true)
      ⊎ ((0 < g.notifying + count is_awake ws) ⊎ (g.shared.stop ≡ true))

ruleset counting = (arith, length-place, count-append)

-- A worker changes its place.
module _ (n : ℕ) (front : List Place) (back : List Place) where
  abbrev After : Place × Guarded → Type 0
  After r = IsHeard n (front ++ r.0 ∷ back) r.1

  locking-IsHeard :
      (g : Guarded)
      → g.locked ≡ false
      → IsHeard n (front ++ locking ∷ back) g
      → IsHeard n (front ++ testing ∷ back) (record g { locked = true })
  locking-IsHeard g e h = grind counting

  busy-IsHeard :
      (g : Guarded) (t : ℕ)
      → IsHeard n (front ++ busy t ∷ back) g
      → IsHeard n (front ++ finishing ∷ back) (run_task t g)
  unfolding run_task
  busy-IsHeard g t h = grind counting

  finishing-IsHeard :
      (g : Guarded) (is_empty : Bool)
      → IsHeard n (front ++ finishing ∷ back) g
      → IsHeard n (front ++ locking ∷ back) (count_off is_empty g)
  unfolding count_down count_off
  finishing-IsHeard g is_empty h = grind counting

  emptied-IsHeard :
      (g : Guarded)
      → IsHeard n (front ++ emptied ∷ back) g
      → IsHeard n (front ++ blocked ∷ back) (record g { locked = false })
  emptied-IsHeard g h = grind counting

  woken-IsHeard :
      (g : Guarded) → IsHeard n (front ++ blocked ∷ back) g → IsHeard n (front ++ locking ∷ back) g
  woken-IsHeard g h = grind counting

  notified-IsHeard :
      (g : Guarded) (k : ℕ)
      → IsHeard n (front ++ blocked ∷ back) g
      → IsHeard n (front ++ locking ∷ back) (record g { notifying = k })
  notified-IsHeard g k h = grind counting

  empty-IsHeard :
      (g : Guarded) (stopped : Bool)
      → g.shared.stop ≡ stopped
      → g.shared.tasks ≡ []
      → IsHeard n (front ++ testing ∷ back) g
      → After (if stopped then (gone, record g { locked = false }) else (emptied, g))
  empty-IsHeard g true f e h = grind counting
  empty-IsHeard g false f e h = grind counting

  tested-IsHeard :
      (g : Guarded) (ts : List ℕ)
      → g.shared.tasks ≡ ts
      → IsHeard n (front ++ testing ∷ back) g
      → IsHeard n (front ++ (test_tasks ts g).0 ∷ back) (test_tasks ts g).1
  unfolding test_tasks
  tested-IsHeard g [] e h = empty-IsHeard g g.shared.stop refl e h
  tested-IsHeard g (t ∷ ts) e h = grind counting

  locked-IsHeard :
      (g : Guarded) (locked : Bool) (r : Place × Guarded)
      → g.locked ≡ locked
      → (if locked then none else some (testing, record g { locked = true })) ≡ some r
      → IsHeard n (front ++ locking ∷ back) g
      → IsHeard n (front ++ r.0 ∷ back) r.1
  locked-IsHeard g true r f e h = absurd (cc e)
  locked-IsHeard g false r f e h =
      subst_some After (testing, record g { locked = true }) r e (locking-IsHeard g f h)

  turn-IsHeard :
      (w : Place) (g : Guarded) (r : Place × Guarded)
      → turn w g ≡ some r
      → IsHeard n (front ++ w ∷ back) g
      → IsHeard n (front ++ r.0 ∷ back) r.1
  unfolding turn
  turn-IsHeard locking g r e h = locked-IsHeard g g.locked r refl e h
  turn-IsHeard testing g r e h =
      subst_some After (test_tasks g.shared.tasks g) r e (tested-IsHeard g g.shared.tasks refl h)
  turn-IsHeard emptied g r e h =
      subst_some After (blocked, record g { locked = false }) r e (emptied-IsHeard g h)
  turn-IsHeard blocked g r e h = absurd (cc e)
  turn-IsHeard (busy t) g r e h =
      subst_some After (finishing, run_task t g) r e (busy-IsHeard g t h)
  turn-IsHeard finishing g r e h =
      subst_some After (locking, count_off (no_tasks g.shared.tasks) g) r e
        (finishing-IsHeard g (no_tasks g.shared.tasks) h)
  turn-IsHeard gone g r e h = absurd (cc e)

module _ (n : ℕ) (ws : List Place) (g : Guarded) (h : IsHeard n ws g) where
  posted-IsHeard : (t : ℕ) → g.locked ≡ false → IsHeard n ws (post (async_task_ret t g.shared) g)
  unfolding post async_task_ret
  posted-IsHeard t e = ground (arith, emptied_holders ws)

  stopped-IsHeard : IsHeard n ws (stop_threads g)
  unfolding stop_threads stop_pool
  stopped-IsHeard = ground arith

  unheard-IsHeard :
      (k : ℕ)
      → 0 < n
      → g.notifying ≡ suc k
      → count is_blocked ws ≡ 0
      → IsHeard n ws (record g { notifying = k })
  unheard-IsHeard k pos e f = ground (arith, count_all ws)

  alarmed-IsHeard : (k : ℕ) → IsHeard n (map wake ws) (record g { alarms = k })
  alarmed-IsHeard k = ground (arith, count-wake ws, length-wake ws)

Step-IsHeard :
    (n : ℕ) (p q : Threads) → 0 < n → Step false p q → IsHeard n p.0 p.1 → IsHeard n q.0 q.1
Step-IsHeard n p q pos (posts ws g t e f) h = absurd (cc e)
Step-IsHeard n p q pos (posts_ret ws g t e) h = posted-IsHeard n ws g h t e
Step-IsHeard n p q pos (stops ws g) h = stopped-IsHeard n ws g h
Step-IsHeard n p q pos (notifies_one front back g k e) h = notified-IsHeard n front back g k h
Step-IsHeard n p q pos (notifies_none ws g k e f) h = unheard-IsHeard n ws g h k pos e f
Step-IsHeard n p q pos (notifies_all ws g k e) h = alarmed-IsHeard n ws g h k
Step-IsHeard n p q pos (wakes front back g) h = woken-IsHeard n front back g h
Step-IsHeard n p q pos (counts front back g is_empty) h =
    finishing-IsHeard n front back g is_empty h
Step-IsHeard n p q pos (turns front w back g w' g' e) h = turn-IsHeard n front back w g (w', g') e h

begin-IsHeard : (n : ℕ) → IsHeard n (begin n).0 (begin n).1
unfolding begin
begin-IsHeard n = ground (arith, length-replicate n locking, all_locking n)

-- A pool of at least one worker to which tasks come by `asyncTaskret` alone, with a stop,
-- notifications and wake-ups at any time: its workers stay as many, at most one holds the mutex,
-- none has left unless the pool is stopped, a worker that has found no task and is not blocked yet
-- is still right, and while the queue holds a task and the pool is not stopped, a `notify_one` is
-- to come or some worker is awake.
pub Reachable-IsHeard : (n : ℕ) (p : Threads) → 0 < n → Reachable false n p → IsHeard n p.0 p.1
Reachable-IsHeard n p pos started = begin-IsHeard n
Reachable-IsHeard n q pos (next p q' h st) =
    Step-IsHeard n p q' pos st (Reachable-IsHeard n p pos h)
