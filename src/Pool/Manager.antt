-- ===== src/Pool/Manager.antt =====
-- A `ThreadManager` of include/thread/threadTask.hpp as an object that is moved. Its workers keep
-- the address of the manager that made them.
use mtasc.Common.{
  suc, ◌==◌, ==_false, Option, none, some, ℕ, ◌+◌, ◌≡◌, refl, List, [], ◌∷◌, ◌++◌, Bool, true,
  false, if◌then◌else◌, Outcome, ok, out_of_bounds, ◌>>=◌, sym, ap, ◌∙◌, append-nil, append_assoc,
  length, arith,
}

-- The threads that it may join, and whether each of its pointers is set.
pub record Manager : Type 0 where
  pub threads : ℕ
  pub tasks : List ℕ
  pub running_count : ℕ
  pub count_mutex : Bool
  pub tasks_mutex : Bool
  pub cv : Bool
  pub stop : Bool

-- `ThreadManager(size_t)`
unfoldable pub new_manager : ℕ → Manager
new_manager n = record {
  threads = n;
  tasks = [];
  running_count = 0;
  count_mutex = true;
  tasks_mutex = true;
  cv = true;
  stop = false;
}

-- `ThreadManager(ThreadManager&&)`: the new manager, and what is left of the other.
unfoldable pub move_manager : Manager → Manager × Manager
move_manager other = (
  record {
    threads = other.threads;
    tasks = other.tasks;
    running_count = 0;
    count_mutex = true;
    tasks_mutex = other.tasks_mutex;
    cv = other.cv;
    stop = other.stop;
  },
  record other { threads = 0; tasks = []; tasks_mutex = false; cv = false },
)

-- `operator=(ThreadManager&&)`; `none` is `std::terminate`, which the destructor of a `std::thread`
-- calls that can still be joined.
unfoldable pub assign_manager : Manager → Manager → Option (Manager × Manager)
assign_manager this other =
    if this.threads == 0
    then some (
      record this {
        threads = other.threads;
        tasks = other.tasks;
        tasks_mutex = other.tasks_mutex;
        cv = other.cv;
        stop = other.stop;
      },
      record other { threads = 0; tasks = []; tasks_mutex = false; cv = false },
    )
    else none

-- The lock with which a worker begins a round, on its own manager.
unfoldable pub lock_tasks : Manager → Outcome Manager
lock_tasks m = if m.tasks_mutex then ok m else out_of_bounds

-- `asyncTaskvoid`, on a manager with or without its pointers.
unfoldable pub post_task : ℕ → Manager → Outcome Manager
post_task t m =
    if m.count_mutex
    then (if m.cv
        then ok (record m { tasks = m.tasks ++ t ∷ []; running_count = m.running_count + 1 })
        else out_of_bounds)
    else out_of_bounds

abbrev pub post_tasks : List ℕ → Manager → Outcome Manager
post_tasks [] m = ok m
post_tasks (t ∷ ts) m = post_task t m >>= post_tasks ts

-- What submissions do to a manager that has its pointers.
record Posted (ts : List ℕ) (m m' : Manager) : Type 0 where
  queued : m'.tasks ≡ m.tasks ++ ts
  counted : m'.running_count ≡ m.running_count + length ts
  whole : (m'.count_mutex ≡ true) × (m'.cv ≡ true)

if_true : {A : Type 0} (b : Bool) (x y : A) → b ≡ true → (if b then x else y) ≡ x
if_true true x y h = refl
if_true false x y h = absurd (cc h)

post_task_lem :
    (t : ℕ) (m : Manager)
    → m.count_mutex ≡ true
    → m.cv ≡ true
    → post_task t m
      ≡ ok (record m { tasks = m.tasks ++ t ∷ []; running_count = m.running_count + 1 })
unfolding post_task
post_task_lem t m h k = if_true m.count_mutex _ _ h ∙ if_true m.cv _ _ k

post_tasks-Posted :
    (ts : List ℕ) (m : Manager)
    → m.count_mutex ≡ true
    → m.cv ≡ true
    → (m' : Manager) × (post_tasks ts m ≡ ok m') × Posted ts m m'
unfolding post_task
post_tasks-Posted [] m h k =
    (m, refl, record { queued = sym (append-nil m.tasks); counted = omega arith; whole = (h, k) })
post_tasks-Posted (t ∷ ts) m h k =
    let next : Manager = record m {
      tasks = m.tasks ++ t ∷ [];
      running_count = m.running_count + 1;
    } in
    let (m', e, p) = post_tasks-Posted ts next h k in
    (
      m',
      ap (λ (o : Outcome Manager). o >>= post_tasks ts) (post_task_lem t m h k) ∙ e,
      record {
        queued = p.queued ∙ append_assoc m.tasks (t ∷ []) ts;
        counted = omega (arith, p.counted);
        whole = p.whole;
      },
    )

-- A manager that is moved between submissions takes both the earlier and the later tasks, but
-- counts only the later ones, and the workers, which are left with the other manager, are undefined
-- behaviour at their next lock.
pub move_manager_miscounts :
    (n : ℕ) (ts us : List ℕ)
    → (m m' : Manager) × (post_tasks ts (new_manager n) ≡ ok m)
      × (post_tasks us (move_manager m).0 ≡ ok m')
      × (m'.tasks ≡ ts ++ us)
      × (m'.running_count ≡ length us)
      × (lock_tasks (move_manager m).1 ≡ out_of_bounds)
unfolding new_manager move_manager lock_tasks
move_manager_miscounts n ts us =
    let (m, e, p) = post_tasks-Posted ts (new_manager n) refl refl in
    let (m', f, q) = post_tasks-Posted us (move_manager m).0 refl p.whole.1 in
    (m, m', e, f, q.queued ∙ ap (λ (l : List ℕ). l ++ us) p.queued, omega (arith, q.counted), refl)

-- A manager that has workers ends the program when another one is assigned to it.
pub assign_manager_terminates :
    (n : ℕ) (other : Manager) → assign_manager (new_manager (suc n)) other ≡ none
unfolding assign_manager new_manager
assign_manager_terminates n other = rw (==_false (suc n) 0 (λ e. omega (arith, e)))
