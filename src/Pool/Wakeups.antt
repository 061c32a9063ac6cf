-- ===== src/Pool/Wakeups.antt =====
-- The condition variable of `ThreadManager`, of include/thread/threadTask.hpp: the wait of a worker
-- in its steps, with `M_tasksMutex_`, and the notifications, which the callers give behind their
-- sections. A wait may also end without a notification. The wait of `waitAllthread` on the same
-- condition variable is not modelled here.
--
-- `asyncTaskvoid` pushes under `M_countMutex_` and all other code works on the queue under
-- `M_tasksMutex_`, so a push of it can overlap with another push or with the removal of a task.
-- That is a data race on the deque, undefined behaviour, and no step here: its push is a step while
-- no worker is at the queue, and nothing is said about a program in which they overlap. A worker
-- that counts its task off reads under `M_countMutex_` whether the queue is empty, which races with
-- the push of `asyncTaskret`: the step `counts` lets it read either.
mod Counts
mod Holders
pub mod Torn
pub mod Heard
pub mod Progress
pub mod Lost
pub mod Hangs
mod Tests
use mtasc.Common.{
  ℕ, suc, ◌+◌, ◌≡◌, List, [], ◌∷◌, ◌++◌, map, replicate, Bool, true, false, if◌then◌else◌, Option,
  none, some, ◌&&◌, ◌==◌, ◌-◌, ltb,
}
use mtasc.Pool.{Shared, async_task, async_task_ret, stop_pool, no_tasks, Worker}

-- Where a worker stands in its loop. It asks for the mutex, holds it and tests the condition, holds
-- it and has found no task, waits for a notification, runs a task, counts it off, or has left.
pub data Place : Type 0 where
  locking testing emptied blocked : Place
  busy : ℕ → Place
  finishing gone : Place

-- What the threads share, whether a worker holds `M_tasksMutex_`, and the calls of `notify_one` and
-- of `notify_all` that are still to come.
pub record Guarded : Type 0 where
  pub shared : Shared
  pub locked : Bool
  pub notifying : ℕ
  pub alarms : ℕ

abbrev pub Threads : Type 0
Threads = List Place × Guarded

unfoldable pub begin : ℕ → Threads
begin n = (
  replicate n locking,
  record {
    shared = record { tasks = []; running_count = 0; stop = false; submitted = []; executed = [] };
    locked = false;
    notifying = 0;
    alarms = 0;
  },
)

-- The condition of the wait and what follows it under the mutex.
unfoldable pub test_tasks : List ℕ → Guarded → Place × Guarded
test_tasks [] g = if g.shared.stop then (gone, record g { locked = false }) else (emptied, g)
test_tasks (t ∷ ts) g =
    (busy t, record g { shared = record g.shared { tasks = ts }; locked = false })

-- A task is run.
unfoldable pub run_task : ℕ → Guarded → Guarded
run_task t g = record g { shared = record g.shared { executed = g.shared.executed ++ t ∷ [] } }

unfoldable pub count_down : Shared → Shared
count_down s = record s {
  running_count = if ltb 0 s.running_count then s.running_count - 1 else s.running_count;
}

-- The section under `M_countMutex_` behind a task, with what it reads of the queue.
unfoldable pub count_off : Bool → Guarded → Guarded
unfolding count_down
count_off is_empty g =
    let s = count_down g.shared in
    record g {
      shared = s;
      alarms = if (s.running_count == 0) && is_empty then g.alarms + 1 else g.alarms;
    }

-- The next step of a worker, `none` where it cannot go on by itself.
unfoldable pub turn : Place → Guarded → Option (Place × Guarded)
unfolding test_tasks run_task count_off
turn locking g = if g.locked then none else some (testing, record g { locked = true })
turn testing g = some (test_tasks g.shared.tasks g)
turn emptied g = some (blocked, record g { locked = false })
turn blocked g = none
turn (busy t) g = some (finishing, run_task t g)
turn finishing g = some (locking, count_off (no_tasks g.shared.tasks) g)
turn gone g = none

-- Behind the section of a submission a `notify_one` is to come.
unfoldable pub post : Shared → Guarded → Guarded
post s g = record g { shared = s; notifying = g.notifying + 1 }

-- `M_stop.store(true)`, without a mutex, behind which a `notify_all` is to come.
unfoldable pub stop_threads : Guarded → Guarded
unfolding stop_pool
stop_threads g = record g { shared = stop_pool g.shared; alarms = g.alarms + 1 }

-- What `notify_all` does to a worker.
unfoldable pub wake : Place → Place
wake blocked = locking
wake locking = locking
wake testing = testing
wake emptied = emptied
wake (busy t) = busy t
wake finishing = finishing
wake gone = gone

abbrev pub is_blocked : Place → Bool
is_blocked blocked = true
is_blocked locking = false
is_blocked testing = false
is_blocked emptied = false
is_blocked (busy t) = false
is_blocked finishing = false
is_blocked gone = false

-- At the queue, under `M_tasksMutex_`.
abbrev pub is_testing : Place → Bool
is_testing testing = true
is_testing locking = false
is_testing emptied = false
is_testing blocked = false
is_testing (busy t) = false
is_testing finishing = false
is_testing gone = false

-- Where a worker stands between its critical sections.
unfoldable pub to_worker : Place → Worker
to_worker locking = Worker.waiting
to_worker testing = Worker.waiting
to_worker emptied = Worker.waiting
to_worker blocked = Worker.waiting
to_worker (busy t) = Worker.running t
to_worker finishing = Worker.counting
to_worker gone = Worker.left

abbrev pub bit : Bool → ℕ
bit true = 1
bit false = 0

unfoldable pub count : (Place → Bool) → List Place → ℕ
count p [] = 0
count p (w ∷ ws) = bit (p w) + count p ws

-- The steps. `asyncTaskvoid` pushes its task under `M_countMutex_`, whoever holds `M_tasksMutex_`,
-- if no worker is at the queue; `asyncTaskret` needs `M_tasksMutex_`. The first parameter tells
-- whether `asyncTaskvoid` is used.
pub data Step (void_used : Bool) : Threads → Threads → Type 0 where
  posts :
      (ws : List Place) (g : Guarded) (t : ℕ)
      → void_used ≡ true
      → count is_testing ws ≡ 0
      → Step void_used (ws, g) (ws, post (async_task t g.shared) g)
  posts_ret :
      (ws : List Place) (g : Guarded) (t : ℕ)
      → g.locked ≡ false
      → Step void_used (ws, g) (ws, post (async_task_ret t g.shared) g)
  stops : (ws : List Place) (g : Guarded) → Step void_used (ws, g) (ws, stop_threads g)
  notifies_one :
      (front back : List Place) (g : Guarded) (k : ℕ)
      → g.notifying ≡ suc k
      → Step void_used
          (front ++ blocked ∷ back, g)
          (front ++ locking ∷ back, record g { notifying = k })
  notifies_none :
      (ws : List Place) (g : Guarded) (k : ℕ)
      → g.notifying ≡ suc k
      → count is_blocked ws ≡ 0
      → Step void_used (ws, g) (ws, record g { notifying = k })
  notifies_all :
      (ws : List Place) (g : Guarded) (k : ℕ)
      → g.alarms ≡ suc k
      → Step void_used (ws, g) (map wake ws, record g { alarms = k })
  wakes :
      (front back : List Place) (g : Guarded)
      → Step void_used (front ++ blocked ∷ back, g) (front ++ locking ∷ back, g)
  counts :
      (front back : List Place) (g : Guarded) (is_empty : Bool)
      → Step void_used
          (front ++ finishing ∷ back, g)
          (front ++ locking ∷ back, count_off is_empty g)
  turns :
      (front : List Place) (w : Place) (back : List Place) (g : Guarded) (w' : Place) (g' : Guarded)
      → turn w g ≡ some (w', g')
      → Step void_used (front ++ w ∷ back, g) (front ++ w' ∷ back, g')

pub data Reachable (void_used : Bool) (n : ℕ) : Threads → Type 0 where
  started : Reachable void_used n (begin n)
  next : (p q : Threads) → Reachable void_used n p → Step void_used p q → Reachable void_used n q
