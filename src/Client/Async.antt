-- ===== src/Client/Async.antt =====
-- The asynchronous calls of the tool, run by one worker: every request is answered once.
use mtasc.Common.{
  ℕ, zero, suc, ◌+◌, ◌*◌, ◌<◌, ◌≡◌, refl, ap, sym, ◌∙◌, List, [], ◌∷◌, ◌++◌, append-nil,
  append_assoc, length, length-append, Outcome, ok, thrown, out_of_bounds, out_of_fuel, ◌>>=◌,
  arith,
}
use mtasc.Client.{Request, Reply, Task, compute, callback, sync_reply, drain}

-- The tasks that the calls queue, and those of their callbacks.
abbrev pub computations : List (ℕ × Request) → List Task
computations [] = []
computations ((id, request) ∷ calls) = compute id request ∷ computations calls

abbrev pub callbacks : List (ℕ × Reply) → List Task
callbacks [] = []
callbacks ((id, reply) ∷ replies) = callback id reply ∷ callbacks replies

-- Each reply is the synchronous one, under the number of its callback.
abbrev pub Answers : List (ℕ × Request) → List (ℕ × Reply) → Type 0
Answers [] [] = Unit {0}
Answers [] (r ∷ replies) = ⊥
Answers (c ∷ calls) [] = ⊥
Answers (c ∷ calls) (r ∷ replies) = (c.0 ≡ r.0) × (sync_reply c.1 ≡ ok r.1) × Answers calls replies

callbacks-append : (xs ys : List (ℕ × Reply)) → callbacks (xs ++ ys) ≡ callbacks xs ++ callbacks ys
callbacks-append [] ys = refl
callbacks-append ((id, r) ∷ xs) ys = ap (◌∷◌ (callback id r)) (callbacks-append xs ys)

drain-callbacks :
    (fuel : ℕ) (replies : List (ℕ × Reply))
    → length replies < fuel
    → drain fuel (callbacks replies) ≡ ok replies
unfolding drain
drain-callbacks zero replies h = absurd (omega arith)
drain-callbacks (suc fuel) [] h = refl
drain-callbacks (suc fuel) ((id, r) ∷ replies) h =
    rw (append-nil (callbacks replies), drain-callbacks fuel replies (omega arith))

-- The synchronous calls, one behind the other, each reply under the number of its callback.
abbrev pub sync_all : List (ℕ × Request) → Outcome (List (ℕ × Reply))
sync_all [] = ok []
sync_all ((id, request) ∷ calls) =
    sync_reply request >>= λ r. sync_all calls >>= λ replies. ok ((id, r) ∷ replies)

-- Replies in front of those that are still to come.
abbrev behind : List (ℕ × Reply) → Outcome (List (ℕ × Reply)) → Outcome (List (ℕ × Reply))
behind waiting o = o >>= λ replies. ok (waiting ++ replies)

behind-nil : (o : Outcome (List (ℕ × Reply))) → behind [] o ≡ o
behind-nil (ok replies) = refl
behind-nil (thrown e) = refl
behind-nil out_of_bounds = refl
behind-nil out_of_fuel = refl

behind-append :
    (waiting : List (ℕ × Reply)) (r : ℕ × Reply) (o : Outcome (List (ℕ × Reply)))
    → behind (waiting ++ r ∷ []) o ≡ behind waiting (o >>= λ replies. ok (r ∷ replies))
behind-append waiting r (ok replies) = ap ok (append_assoc waiting (r ∷ []) replies)
behind-append waiting r (thrown e) = refl
behind-append waiting r out_of_bounds = refl
behind-append waiting r out_of_fuel = refl

-- The first task of a call, if the rest of the run is known.
drain-compute :
    (fuel id : ℕ) (q : Request) (calls : List (ℕ × Request)) (waiting : List (ℕ × Reply))
    (o : Outcome Reply)
    → sync_reply q ≡ o
    → ((r : Reply)
        → drain fuel (computations calls ++ callbacks (waiting ++ (id, r) ∷ []))
          ≡ behind (waiting ++ (id, r) ∷ []) (sync_all calls))
    → drain (suc fuel) (compute id q ∷ (computations calls ++ callbacks waiting))
      ≡ behind waiting (o >>= λ r. sync_all calls >>= λ replies. ok ((id, r) ∷ replies))
unfolding drain
drain-compute fuel id q calls waiting (ok r) e ih =
    rw
      (
        e,
        append_assoc (computations calls) (callbacks waiting) (callback id r ∷ []),
        ← callbacks-append waiting ((id, r) ∷ []),
        ih r,
      )
      (behind-nil (behind (waiting ++ (id, r) ∷ []) (sync_all calls))
        ∙ behind-append waiting (id, r) (sync_all calls))
drain-compute fuel id q calls waiting (thrown x) e ih = rw e
drain-compute fuel id q calls waiting out_of_bounds e ih = rw e
drain-compute fuel id q calls waiting out_of_fuel e ih = rw e

drain_all :
    (fuel : ℕ) (calls : List (ℕ × Request)) (waiting : List (ℕ × Reply))
    → 2 * length calls + length waiting < fuel
    → drain fuel (computations calls ++ callbacks waiting) ≡ behind waiting (sync_all calls)
unfolding drain
drain_all zero calls waiting h = absurd (omega arith)
drain_all (suc fuel) [] waiting h =
    drain-callbacks (suc fuel) waiting (omega arith) ∙ ap ok (sym (append-nil waiting))
drain_all (suc fuel) ((id, q) ∷ calls) waiting h =
    drain-compute fuel id q calls waiting (sync_reply q) refl λ r.
      drain_all fuel calls (waiting ++ (id, r) ∷ [])
        (omega (arith, length-append waiting ((id, r) ∷ [])))

-- A worker that runs the tasks of the asynchronous calls in their order does what the synchronous
-- calls do, one behind the other, whatever the calls are: it calls each callback once, in the order
-- of the calls, with the reply of the synchronous call; and where one of these throws, or reads
-- outside its text, so does the worker, whose thread has no handler for it.
pub drain-sync_all :
    (calls : List (ℕ × Request))
    → drain (2 * length calls + 1) (computations calls) ≡ sync_all calls
drain-sync_all calls =
    rw (← append-nil (computations calls))
      (drain_all (2 * length calls + 1) calls [] (omega arith) ∙ behind-nil (sync_all calls))

sync_all-Answers :
    (calls : List (ℕ × Request)) (replies : List (ℕ × Reply))
    → Answers calls replies
    → sync_all calls ≡ ok replies
sync_all-Answers [] [] a = refl
sync_all-Answers [] (r ∷ replies) a = absurd a
sync_all-Answers (c ∷ calls) [] a = absurd a
sync_all-Answers ((id, q) ∷ calls) ((jd, r) ∷ replies) a =
    rw (a.1, sync_all-Answers calls replies a.2, a.0)

-- If each synchronous call gives a reply, the callbacks get these, and the worker runs out of
-- tasks.
pub async_replies :
    (calls : List (ℕ × Request)) (replies : List (ℕ × Reply))
    → Answers calls replies
    → drain (2 * length calls + 1) (computations calls) ≡ ok replies
async_replies calls replies a = drain-sync_all calls ∙ sync_all-Answers calls replies a
