-- ===== src/Pool/Wakeups/Progress.antt =====
-- A pool whose tasks are pushed under the mutex of the wait goes on while it has tasks.
use mtasc.Common.{
  ℕ, ◌+◌, ◌<◌, ◌≡◌, refl, ap, List, [], ◌∷◌, ◌++◌, Bool, true, false, Bool-cases, some, inl, inr,
  arith,
}
use mtasc.Pool.{no_tasks}
use mtasc.Pool.Wakeups.{
  Place, locking, testing, emptied, blocked, busy, finishing, gone, Guarded, Threads, turn, bit,
  count, Reachable,
}
use mtasc.Pool.Wakeups.Counts.{is_awake, is_holder}
use mtasc.Pool.Wakeups.Heard.{IsHeard, Reachable-IsHeard}

-- Some worker can take a step by itself.
pub record GoesOn (ws : List Place) (g : Guarded) : Type 0 where
  pub front : List Place
  pub worker : Place
  pub back : List Place
  pub after : Place × Guarded
  pub is_there : ws ≡ front ++ worker ∷ back
  pub moves : turn worker g ≡ some after

-- A worker with a property that some worker has.
find_place :
    (p : Place → Bool) (ws : List Place)
    → 0 < count p ws
    → (front : List Place) × (w : Place) × (back : List Place) × (ws ≡ front ++ w ∷ back)
      × (p w ≡ true)
unfolding count
find_place p [] h = absurd (omega arith)
find_place p (w ∷ ws) h = elim (Bool-cases (p w)) [
  | inl here ↦ ([], w, ws, refl, here)
  | inr elsewhere ↦
      let rest : 0 < bit false + count p ws = rw elsewhere at h in
      let (front, v, back, e, f) = find_place p ws (omega (arith, rest)) in
      (w ∷ front, v, back, ap (◌∷◌ w) e, f)
]

holder_moves :
    (w : Place) (g : Guarded) → is_holder w ≡ true → (r : Place × Guarded) × (turn w g ≡ some r)
unfolding turn
holder_moves locking g h = absurd (cc h)
holder_moves testing g h = (_, refl)
holder_moves emptied g h = (_, refl)
holder_moves blocked g h = absurd (cc h)
holder_moves (busy t) g h = absurd (cc h)
holder_moves finishing g h = absurd (cc h)
holder_moves gone g h = absurd (cc h)

awake_moves :
    (w : Place) (g : Guarded)
    → g.locked ≡ false
    → is_awake w ≡ true
    → (r : Place × Guarded) × (turn w g ≡ some r)
unfolding turn
awake_moves locking g e h = ((testing, record g { locked = true }), rw e)
awake_moves testing g e h = (_, refl)
awake_moves emptied g e h = (_, refl)
awake_moves blocked g e h = absurd (cc h)
awake_moves (busy t) g e h = (_, refl)
awake_moves finishing g e h = (_, refl)
awake_moves gone g e h = absurd (cc h)

IsHeard-GoesOn :
    (n : ℕ) (ws : List Place) (g : Guarded)
    → IsHeard n ws g
    → no_tasks g.shared.tasks ≡ false
    → g.shared.stop ≡ false
    → g.notifying ≡ 0
    → GoesOn ws g
IsHeard-GoesOn n ws g h queued running quiet = elim (Bool-cases g.locked) [
  | inl locked ↦
      let (front, w, back, e, f) = find_place is_holder ws (ground (arith, h.one_holder, locked)) in
      let (r, moves) = holder_moves w g f in
      record { front = front; worker = w; back = back; after = r; is_there = e; moves = moves }
  | inr free ↦
      let (front, w, back, e, f) =
        find_place is_awake ws (ground (arith, h.heard, queued, running, quiet)) in
      let (r, moves) = awake_moves w g free f in
      record { front = front; worker = w; back = back; after = r; is_there = e; moves = moves }
]

-- A pool of at least one worker to which tasks come by `asyncTaskret` alone never stands still with
-- a task in its queue: whatever it has reached, if it is not stopped and every `notify_one` has
-- been given, some worker can take a step by itself.
pub Reachable-GoesOn :
    (n : ℕ) (p : Threads)
    → 0 < n
    → Reachable false n p
    → no_tasks p.1.shared.tasks ≡ false
    → p.1.shared.stop ≡ false
    → p.1.notifying ≡ 0
    → GoesOn p.0 p.1
Reachable-GoesOn n p pos h queued running quiet =
    IsHeard-GoesOn n p.0 p.1 (Reachable-IsHeard n p pos h) queued running quiet
