-- ===== src/Pool/Wakeups/Torn.antt =====
-- The condition of `waitAllthread`, whose two parts are read one after the other.
use mtasc.Common.{ℕ, ◌+◌, ◌≡◌, refl, ap, List, [], ◌∷◌, ◌++◌, Bool, true, false, ==→eq}
use mtasc.Pool.{async_task_ret, reads_count, reads_queue}
use mtasc.Pool.Wakeups.{
  Place, locking, testing, busy, Guarded, Threads, turn, test_tasks, post, Step, posts_ret, turns,
}

-- What the threads can come to from a state.
pub data Later (void_used : Bool) (p : Threads) : Threads → Type 0 where
  now : Later void_used p p
  later : (q r : Threads) → Later void_used p q → Step void_used q r → Later void_used p r

-- `waitAllthread` can take the pool for completed while a task runs, even if `asyncTaskvoid` is not
-- used: it reads that the count is 0, then `asyncTaskret` pushes a task and a worker takes it,
-- since both work under the other mutex, and then it reads that the queue is empty. This can happen
-- wherever the count is 0 and the queue is empty, the mutex of the queue is free, and a worker asks
-- for it.
pub reads_count-reads_queue :
    (t : ℕ) (front back : List Place) (g : Guarded)
    → g.locked ≡ false
    → reads_count g.shared ≡ true
    → g.shared.tasks ≡ []
    → (g' : Guarded) × Later false (front ++ locking ∷ back, g) (front ++ busy t ∷ back, g')
      × (reads_queue g'.shared ≡ true)
      × (g'.shared.running_count ≡ 1)
unfolding turn test_tasks post async_task_ret reads_count reads_queue
reads_count-reads_queue t front back g free zero_read empty =
    let pushed : Guarded = post (async_task_ret t g.shared) g in
    let held : Guarded = record pushed { locked = true } in
    let taken : Guarded = record held {
      shared = record held.shared { tasks = [] };
      locked = false;
    } in
    (
      taken,
      later _ _
          (later _ _ (later _ _ now (posts_ret (front ++ locking ∷ back) g t free))
            (turns front locking back pushed testing held (rw free)))
          (turns front testing back held (busy t) taken (rw empty)),
      refl,
      ap (λ k. k + 1) (==→eq g.shared.running_count 0 zero_read),
    )
