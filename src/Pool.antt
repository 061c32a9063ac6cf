-- ===== src/Pool.antt =====
-- `ThreadManager` of include/thread/threadTask.hpp: its data and the changes of them. A task is a
-- number; what it does is not modelled. Wakeups says which steps of the threads make these changes,
-- and under which mutex.
pub mod Instance
pub mod Wakeups
pub mod Manager
use mtasc.Common.{ℕ, ◌+◌, List, [], ◌∷◌, ◌++◌, replicate, Bool, true, false, ◌==◌}

-- Where a worker stands in its loop.
pub data Worker : Type 0 where
  waiting : Worker
  running : ℕ → Worker
  counting : Worker
  left : Worker

-- What the threads share. `submitted` and `executed` record the tasks, for the statements.
pub record Shared : Type 0 where
  pub tasks : List ℕ
  pub running_count : ℕ
  pub stop : Bool
  pub submitted : List ℕ
  pub executed : List ℕ

abbrev pub Pool : Type 0
Pool = List Worker × Shared

-- The constructor, with the number of threads.
unfoldable pub start : ℕ → Pool
start n = (
  replicate n waiting,
  record { tasks = []; running_count = 0; stop = false; submitted = []; executed = [] },
)

-- `asyncTaskvoid`
unfoldable pub async_task : ℕ → Shared → Shared
async_task t s = record s {
  tasks = s.tasks ++ t ∷ [];
  running_count = s.running_count + 1;
  submitted = s.submitted ++ t ∷ [];
}

-- `asyncTaskret`, whose packaged task is a task like any other.
unfoldable pub async_task_ret : ℕ → Shared → Shared
async_task_ret t s = record s {
  tasks = s.tasks ++ t ∷ [];
  running_count = s.running_count + 1;
  submitted = s.submitted ++ t ∷ [];
}

-- The first lines of `waitAllthread` and of the destructor.
unfoldable pub stop_pool : Shared → Shared
stop_pool s = record s { stop = true }

abbrev pub no_tasks : List ℕ → Bool
no_tasks [] = true
no_tasks (t ∷ ts) = false

-- The condition on which `waitAllthread` takes the pool for completed, in its two parts: the
-- threads can go on between them.
unfoldable pub reads_count : Shared → Bool
reads_count s = s.running_count == 0

unfoldable pub reads_queue : Shared → Bool
reads_queue s = no_tasks s.tasks

-- The condition on which the joins of `waitAllthread` and of the destructor have returned.
unfoldable pub is_joined : List Worker → Bool
is_joined [] = true
is_joined (waiting ∷ ws) = false
is_joined (running t ∷ ws) = false
is_joined (counting ∷ ws) = false
is_joined (left ∷ ws) = is_joined ws
