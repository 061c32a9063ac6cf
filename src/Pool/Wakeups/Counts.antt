-- ===== src/Pool/Wakeups/Counts.antt =====
-- How many workers stand where, for the steps of the pool with its condition variable.
use mtasc.Common.{
  ℕ, zero, suc, ◌+◌, ◌≤◌, ◌≡◌, refl, ap, List, [], ◌∷◌, ◌++◌, map, replicate, length, Bool, true,
  false, arith,
}
use mtasc.Pool.Wakeups.{
  Place, locking, testing, emptied, blocked, busy, finishing, gone, wake, bit, count, is_blocked,
}

-- A worker that goes on by itself: it asks for the mutex, holds it, or is at a task.
abbrev pub is_awake : Place → Bool
is_awake locking = true
is_awake testing = true
is_awake emptied = true
is_awake blocked = false
is_awake (busy t) = true
is_awake finishing = true
is_awake gone = false

abbrev pub is_emptied : Place → Bool
is_emptied locking = false
is_emptied testing = false
is_emptied emptied = true
is_emptied blocked = false
is_emptied (busy t) = false
is_emptied finishing = false
is_emptied gone = false

-- A worker that holds the mutex.
abbrev pub is_holder : Place → Bool
is_holder locking = false
is_holder testing = true
is_holder emptied = true
is_holder blocked = false
is_holder (busy t) = false
is_holder finishing = false
is_holder gone = false

abbrev pub is_gone : Place → Bool
is_gone locking = false
is_gone testing = false
is_gone emptied = false
is_gone blocked = false
is_gone (busy t) = false
is_gone finishing = false
is_gone gone = true

pub count-append :
    (p : Place → Bool) (front : List Place) (w : Place) (back : List Place)
    → count p (front ++ w ∷ back) ≡ count p front + bit (p w) + count p back
unfolding count
count-append p [] w back = omega arith
count-append p (v ∷ front) w back = omega (arith, count-append p front w back)

-- Every worker is awake, blocked or gone.
pub count_all :
    (ws : List Place) → count is_awake ws + count is_blocked ws + count is_gone ws ≡ length ws
unfolding count
count_all [] = omega arith
count_all (locking ∷ ws) = omega (arith, count_all ws)
count_all (testing ∷ ws) = omega (arith, count_all ws)
count_all (emptied ∷ ws) = omega (arith, count_all ws)
count_all (blocked ∷ ws) = omega (arith, count_all ws)
count_all (busy t ∷ ws) = omega (arith, count_all ws)
count_all (finishing ∷ ws) = omega (arith, count_all ws)
count_all (gone ∷ ws) = omega (arith, count_all ws)

pub emptied_holders : (ws : List Place) → count is_emptied ws ≤ count is_holder ws
unfolding count
emptied_holders [] = omega arith
emptied_holders (locking ∷ ws) = omega (arith, emptied_holders ws)
emptied_holders (testing ∷ ws) = omega (arith, emptied_holders ws)
emptied_holders (emptied ∷ ws) = omega (arith, emptied_holders ws)
emptied_holders (blocked ∷ ws) = omega (arith, emptied_holders ws)
emptied_holders (busy t ∷ ws) = omega (arith, emptied_holders ws)
emptied_holders (finishing ∷ ws) = omega (arith, emptied_holders ws)
emptied_holders (gone ∷ ws) = omega (arith, emptied_holders ws)

pub length-place :
    (front : List Place) (w : Place) (back : List Place)
    → length (front ++ w ∷ back) ≡ suc (length front + length back)
length-place [] w back = omega arith
length-place (v ∷ front) w back = omega (arith, length-place front w back)

pub length-wake : (ws : List Place) → length (map wake ws) ≡ length ws
length-wake [] = refl
length-wake (w ∷ ws) = ap suc (length-wake ws)

-- What `notify_all` changes of the counts.
pub count-wake :
    (ws : List Place)
    → (count is_holder (map wake ws) ≡ count is_holder ws)
      × (count is_gone (map wake ws) ≡ count is_gone ws)
      × (count is_emptied (map wake ws) ≡ count is_emptied ws)
      × (count is_awake ws ≤ count is_awake (map wake ws))
unfolding count wake
count-wake [] = omega arith
count-wake (locking ∷ ws) = omega (arith, count-wake ws)
count-wake (testing ∷ ws) = omega (arith, count-wake ws)
count-wake (emptied ∷ ws) = omega (arith, count-wake ws)
count-wake (blocked ∷ ws) = omega (arith, count-wake ws)
count-wake (busy t ∷ ws) = omega (arith, count-wake ws)
count-wake (finishing ∷ ws) = omega (arith, count-wake ws)
count-wake (gone ∷ ws) = omega (arith, count-wake ws)

pub all_locking :
    (n : ℕ)
    → (count is_holder (replicate n locking) ≡ 0)
      × (count is_gone (replicate n locking) ≡ 0)
      × (count is_emptied (replicate n locking) ≡ 0)
unfolding count
all_locking zero = omega arith
all_locking (suc n) = omega (arith, all_locking n)
