-- ===== src/Pool/Steps.antt =====
-- The histories of a pool: any interleaving of its critical sections and semaphore calls.
use powermail.Base.{ℕ, ◌<◌, ◌≡◌, List, [], ◌∷◌, some, ◌==◌, if◌then◌else◌, ◌+◌}
use powermail.Pool.{
  Pool, get_enter, sem_wait, get_take, give_back, stock_push, stock_post, invalidate,
}

-- How often a thing stands in a list.
unfoldable pub count : ℕ → List ℕ → ℕ
count t [] = 0
count t (u ∷ us) = (if u == t then 1 else 0) + count t us

pub data Step (p : Pool) : Pool → Type 0 where
  enters : Step p (get_enter p)
  waits : {q : Pool} → 0 < p.waiting → sem_wait p ≡ some q → Step p q
  takes : {q : Pool} {t : ℕ} → 0 < p.granted → get_take p ≡ some (t, q) → Step p q
  gives_back : (t : ℕ) → 0 < count t p.in_use → Step p (give_back t p)
  dies : (t : ℕ) → 0 < count t p.in_use → Step p (invalidate t p)
  stocks : Step p (stock_push p)
  posts : 0 < p.posting → Step p (stock_post p)

pub data Reach (s : Pool) : Pool → Type 0 where
  here : Reach s s
  next : {p q : Pool} → Reach s p → Step p q → Reach s q
