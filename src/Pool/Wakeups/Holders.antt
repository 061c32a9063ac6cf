-- ===== src/Pool/Wakeups/Holders.antt =====
-- The mutex of the wait, whichever way tasks are submitted.
use mtasc.Common.{
  subst_some, ℕ, ◌+◌, ◌≡◌, refl, List, [], ◌∷◌, ◌++◌, Bool, true, false, if◌then◌else◌, none, some,
  arith,
}
use mtasc.Pool.{no_tasks}
use mtasc.Pool.Wakeups.Counts.{is_holder, is_emptied, count-append, count-wake, all_locking}
use mtasc.Pool.Wakeups.{
  Place, locking, testing, emptied, blocked, busy, finishing, gone, Guarded, Threads, begin, turn,
  test_tasks, run_task, count_off, post, stop_threads, bit, count, is_testing, Step, posts,
  posts_ret, stops, notifies_one, notifies_none, notifies_all, wakes, counts, turns, Reachable,
  started, next,
}

-- The workers that hold the mutex: one if it is taken, none if not.
OneHolder : Threads → Type 0
OneHolder p = count is_holder p.0 ≡ bit p.1.locked

module _ (front back : List Place) where
  -- A worker changes its place.
  moved-OneHolder :
      (w w' : Place) (g g' : Guarded)
      → bit (is_holder w) + bit g'.locked ≡ bit (is_holder w') + bit g.locked
      → OneHolder (front ++ w ∷ back, g)
      → OneHolder (front ++ w' ∷ back, g')
  unfolding OneHolder
  moved-OneHolder w w' g g' e h =
      omega (arith, e, h, count-append is_holder front w back, count-append is_holder front w' back)

  -- A worker that holds the mutex finds it taken.
  taken :
      (w : Place) (g : Guarded)
      → is_holder w ≡ true
      → OneHolder (front ++ w ∷ back, g)
      → g.locked ≡ true
  unfolding OneHolder
  taken w g e h = grind (arith, e, h, count-append is_holder front w back)

  abbrev After : Place × Guarded → Type 0
  After r = OneHolder (front ++ r.0 ∷ back, r.1)

  empty-OneHolder :
      (g : Guarded) (stopped : Bool)
      → OneHolder (front ++ testing ∷ back, g)
      → After (if stopped then (gone, record g { locked = false }) else (emptied, g))
  empty-OneHolder g true h =
      moved-OneHolder testing gone g (record g { locked = false }) (rw (taken testing g refl h)) h
  empty-OneHolder g false h = moved-OneHolder testing emptied g g refl h

  tested-OneHolder :
      (g : Guarded) (ts : List ℕ) → OneHolder (front ++ testing ∷ back, g) → After (test_tasks ts g)
  unfolding test_tasks
  tested-OneHolder g [] h = empty-OneHolder g g.shared.stop h
  tested-OneHolder g (t ∷ ts) h =
      moved-OneHolder testing (busy t) g
        (record g { shared = record g.shared { tasks = ts }; locked = false })
        (rw (taken testing g refl h)) h

  locked-OneHolder :
      (g : Guarded) (locked : Bool) (r : Place × Guarded)
      → g.locked ≡ locked
      → (if locked then none else some (testing, record g { locked = true })) ≡ some r
      → OneHolder (front ++ locking ∷ back, g)
      → After r
  locked-OneHolder g true r f e h = absurd (cc e)
  locked-OneHolder g false r f e h =
      subst_some After (testing, record g { locked = true }) r e
        (moved-OneHolder locking testing g (record g { locked = true }) (rw f) h)

  turn-OneHolder :
      (w : Place) (g : Guarded) (r : Place × Guarded)
      → turn w g ≡ some r
      → OneHolder (front ++ w ∷ back, g)
      → After r
  unfolding turn run_task count_off
  turn-OneHolder locking g r e h = locked-OneHolder g g.locked r refl e h
  turn-OneHolder testing g r e h =
      subst_some After (test_tasks g.shared.tasks g) r e (tested-OneHolder g g.shared.tasks h)
  turn-OneHolder emptied g r e h =
      subst_some After (blocked, record g { locked = false }) r e
        (moved-OneHolder emptied blocked g (record g { locked = false })
          (rw (taken emptied g refl h)) h)
  turn-OneHolder blocked g r e h = absurd (cc e)
  turn-OneHolder (busy t) g r e h =
      subst_some After (finishing, run_task t g) r e
        (moved-OneHolder (busy t) finishing g (run_task t g) refl h)
  turn-OneHolder finishing g r e h =
      subst_some After (locking, count_off (no_tasks g.shared.tasks) g) r e
        (moved-OneHolder finishing locking g (count_off (no_tasks g.shared.tasks) g) refl h)
  turn-OneHolder gone g r e h = absurd (cc e)

Step-OneHolder : (void_used : Bool) (p q : Threads) → Step void_used p q → OneHolder p → OneHolder q
unfolding OneHolder post stop_threads count_off
Step-OneHolder v p q (posts ws g t e f) h = h
Step-OneHolder v p q (posts_ret ws g t e) h = h
Step-OneHolder v p q (stops ws g) h = h
Step-OneHolder v p q (notifies_one front back g k e) h =
    moved-OneHolder front back blocked locking g (record g { notifying = k }) refl h
Step-OneHolder v p q (notifies_none ws g k e f) h = h
Step-OneHolder v p q (notifies_all ws g k e) h = omega (arith, h, count-wake ws)
Step-OneHolder v p q (wakes front back g) h = moved-OneHolder front back blocked locking g g refl h
Step-OneHolder v p q (counts front back g is_empty) h =
    moved-OneHolder front back finishing locking g (count_off is_empty g) refl h
Step-OneHolder v p q (turns front w back g w' g' e) h = turn-OneHolder front back w g (w', g') e h

Reachable-OneHolder : (v : Bool) (n : ℕ) (p : Threads) → Reachable v n p → OneHolder p
unfolding OneHolder begin
Reachable-OneHolder v n p started = omega (arith, all_locking n)
Reachable-OneHolder v n q (next p q' h st) = Step-OneHolder v p q' st (Reachable-OneHolder v n p h)

testing_holders : (ws : List Place) → count is_testing ws + count is_emptied ws ≡ count is_holder ws
unfolding count
testing_holders [] = omega arith
testing_holders (locking ∷ ws) = omega (arith, testing_holders ws)
testing_holders (testing ∷ ws) = omega (arith, testing_holders ws)
testing_holders (emptied ∷ ws) = omega (arith, testing_holders ws)
testing_holders (blocked ∷ ws) = omega (arith, testing_holders ws)
testing_holders (busy t ∷ ws) = omega (arith, testing_holders ws)
testing_holders (finishing ∷ ws) = omega (arith, testing_holders ws)
testing_holders (gone ∷ ws) = omega (arith, testing_holders ws)

-- While a worker has found no task and holds the mutex, no worker is at the queue.
pub emptied_alone :
    (v : Bool) (n : ℕ) (front back : List Place) (g : Guarded)
    → Reachable v n (front ++ emptied ∷ back, g)
    → count is_testing (front ++ emptied ∷ back) ≡ 0
unfolding OneHolder
emptied_alone v n front back g h = ground (
  arith,
  Reachable-OneHolder v n (front ++ emptied ∷ back, g) h,
  testing_holders (front ++ emptied ∷ back),
  count-append is_emptied front emptied back,
)
