-- ===== src/Pool/Instance.antt =====
-- `THREAD` of include/thread/thread.h: the one pool of the program.
use mtasc.Common.{
  ℕ, ◌≡◌, refl, sym, ◌∙◌, List, [], ◌∷◌, ◌++◌, append-nil, append_assoc, replicate, Bool, true,
  false, not, Option, none, some, if◌then◌else◌, Outcome, ok, thrown, runtime_error, out_of_bounds,
  ◌>>=◌,
}
use mtasc.Pool.{Worker, waiting, Shared, Pool, start, async_task, stop_pool}

pub record Instance : Type 0 where
  pub manager : Option Pool
  pub is_init : Bool

-- `getInstance()`, the first time.
abbrev pub new_instance : Instance
new_instance = record { manager = none; is_init = false }

unfoldable pub create_thread_manager : ℕ → Instance → Instance
create_thread_manager n i =
    if i.is_init then i else record { manager = some (start n); is_init = true }

abbrev pub deref_manager : Option Pool → Outcome Pool
deref_manager none = out_of_bounds
deref_manager (some p) = ok p

unfoldable pub get_thread_manager : Instance → Outcome Pool
get_thread_manager i = if not i.is_init then thrown runtime_error else deref_manager i.manager

-- `getThreadManager().asyncTaskvoid(...)`, as the clients and the sockets call it.
unfoldable pub submit : ℕ → Instance → Outcome Instance
unfolding get_thread_manager
submit t i = get_thread_manager i >>= λ p. ok (record i { manager = some (p.0, async_task t p.1) })

-- `waitThread`, up to its wait.
unfoldable pub wait_thread : Instance → Outcome Instance
unfolding get_thread_manager
wait_thread i = get_thread_manager i >>= λ p. ok (record i { manager = some (p.0, stop_pool p.1) })

-- A call of the program.
pub data Call : Type 0 where
  creates : ℕ → Call
  submits : ℕ → Call
  waits : Call

unfoldable pub run : List Call → Instance → Outcome Instance
run [] i = ok i
run (creates n ∷ calls) i = run calls (create_thread_manager n i)
run (submits t ∷ calls) i = submit t i >>= run calls
run (waits ∷ calls) i = wait_thread i >>= run calls

abbrev pub submissions : List Call → List ℕ
submissions [] = []
submissions (creates n ∷ calls) = submissions calls
submissions (submits t ∷ calls) = t ∷ submissions calls
submissions (waits ∷ calls) = submissions calls

-- Calls on a pool that is made.
run_made :
    (calls : List Call) (ws : List Worker) (s : Shared)
    → (s' : Shared) × (run calls (record { manager = some (ws, s); is_init = true })
        ≡ ok (record { manager = some (ws, s'); is_init = true }))
      × (s'.submitted ≡ s.submitted ++ submissions calls)
unfolding run create_thread_manager get_thread_manager submit wait_thread async_task stop_pool
run_made [] ws s = (s, refl, sym (append-nil s.submitted))
run_made (creates n ∷ calls) ws s = run_made calls ws s
run_made (submits t ∷ calls) ws s =
    let (s', e, given) = run_made calls ws (async_task t s) in
    (s', e, given ∙ append_assoc s.submitted (t ∷ []) (submissions calls))
run_made (waits ∷ calls) ws s = run_made calls ws (stop_pool s)

-- Once the pool is made, every call succeeds: the pool keeps the number of threads that the first
-- `createThreadManager` gave it, and has been given the tasks of all calls in their order. What the
-- workers do meanwhile is left out.
pub run-creates :
    (n : ℕ) (calls : List Call)
    → (s : Shared) × (run (creates n ∷ calls) new_instance
        ≡ ok (record { manager = some (replicate n waiting, s); is_init = true }))
      × (s.submitted ≡ submissions calls)
unfolding run create_thread_manager start
run-creates n calls = run_made calls (replicate n waiting) (start n).1

-- Before it is made, submitting or waiting throws.
pub run_before :
    (t : ℕ) (calls : List Call)
    → (run (submits t ∷ calls) new_instance ≡ thrown runtime_error)
      × (run (waits ∷ calls) new_instance ≡ thrown runtime_error)
unfolding run submit wait_thread get_thread_manager
run_before t calls = (refl, refl)
