-- ===== src/Tests/Pools.antt =====
-- The pool on a concrete history.
use powermail.Base.{ℕ, ◌<◌, ◌≡◌, refl, some, arith}
use powermail.Pool.{Pool, init, get_enter, sem_wait, get_take}
use powermail.Pool.Steps.{count, Reach, here, next, enters, waits}
use powermail.Pool.Invariant.{Inv, Reach-Inv, Reach-get_take}

-- A thread that asked a new pool for a thing, and was let through by the semaphore.
abbrev asked : Pool
asked = get_enter (init 2 5)

abbrev through : Pool
through = record asked { sem = 0; waiting = 0; granted = 1 }

through-Reach : Reach (init 2 5) through
unfolding get_enter init sem_wait
through-Reach = next (next here enters) (waits (omega arith) refl)

Reach-Inv_example : Inv through
Reach-Inv_example = Reach-Inv 2 5 through-Reach

granted_pos : 0 < through.granted
granted_pos = omega arith

Reach-get_take_example :
    (t : ℕ) × (q : Pool) × (get_take through ≡ some (t, q))
    × (count t through.in_use ≡ 0)
    × (count t q.available ≡ 0)
    × (count t q.in_use ≡ 1)
Reach-get_take_example = Reach-get_take 2 5 through-Reach granted_pos
