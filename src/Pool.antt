-- ===== src/Pool.antt =====
-- `PoolClass` of pool.hh: things shared by threads, under a mutex and a counting semaphore. A
-- function is one critical section or one semaphore call, so that a history is an interleaving of
-- the threads' calls. `gfp` makes a new thing at each call: it is named by a number.
pub mod Steps
pub mod Invariant
pub mod Handle
use powermail.Base.{
  ℕ, suc, ◌+◌, ◌-◌, ◌||◌, Bool, List, [], ◌∷◌, ◌++◌, Option, none, some, ltb, ◌==◌, if◌then◌else◌,
  length,
}

-- `available` has the front of the deque first. What the source does not store: the things that
-- handles hold, the threads before `sem_wait`, between `sem_wait` and the second lock of `get`,
-- and between the lock and `sem_post` of `stock`, and how many things died.
pub record Pool : Type 0 where
  pub available : List ℕ
  pub sem : ℕ
  pub created : ℕ
  pub max : ℕ
  pub maxspare : ℕ
  pub next : ℕ
  pub in_use : List ℕ
  pub waiting : ℕ
  pub granted : ℕ
  pub posting : ℕ
  pub deaths : ℕ

-- The constructor, with the two setters that its only caller calls at once.
unfoldable pub init : ℕ → ℕ → Pool
init newmax newspares = record {
  available = [];
  sem = 0;
  created = 0;
  max = newmax;
  maxspare = newspares;
  next = 0;
  in_use = [];
  waiting = 0;
  granted = 0;
  posting = 0;
  deaths = 0;
}

-- The first critical section of `get`; the thread then stands before `sem_wait`.
unfoldable pub get_enter : Pool → Pool
get_enter p = elim p.available [
  | [] ↦
      if p.max == 0 || ltb p.created p.max
      then record p {
        created = p.created + 1;
        available = p.next ∷ [];
        next = p.next + 1;
        sem = p.sem + 1;
        waiting = p.waiting + 1;
      }
      else record p { waiting = p.waiting + 1 }
  | t ∷ ts ↦ record p { waiting = p.waiting + 1 }
]

-- `sem_wait` returns only while the semaphore is positive.
unfoldable pub sem_wait : Pool → Option Pool
sem_wait p =
    if ltb 0 p.sem
    then some (record p { sem = p.sem - 1; waiting = p.waiting - 1; granted = p.granted + 1 })
    else none

-- The second critical section of `get`. `none` is a `front()` of an empty deque.
unfoldable pub get_take : Pool → Option (ℕ × Pool)
get_take p = elim p.available [
  | [] ↦ none
  | t ∷ ts ↦ some (t, record p { available = ts; in_use = t ∷ p.in_use; granted = p.granted - 1 })
]

-- A handle lets go of a thing that it held.
unfoldable pub remove : ℕ → List ℕ → List ℕ
remove t [] = []
remove t (u ∷ us) = if u == t then us else u ∷ remove t us

unfoldable pub give_back : ℕ → Pool → Pool
give_back t p =
    if ltb (length p.available) p.maxspare
    then record p {
      available = p.available ++ (t ∷ []);
      sem = p.sem + 1;
      in_use = remove t p.in_use;
    }
    else record p { created = p.created - 1; in_use = remove t p.in_use }

-- One round of `stock`: the critical section, and the `sem_post` behind it.
unfoldable pub stock_push : Pool → Pool
stock_push p = record p {
  created = p.created + 1;
  available = p.next ∷ p.available;
  next = p.next + 1;
  posting = p.posting + 1;
}

unfoldable pub stock_post : Pool → Pool
stock_post p = record p { sem = p.sem + 1; posting = p.posting - 1 }

-- `Handle::invalidate`: `died()`, which is `stock(1)`, and the thing is deleted.
unfoldable pub invalidate : ℕ → Pool → Pool
unfolding stock_push
invalidate t p =
    let q = stock_push p in record q { in_use = remove t q.in_use; deaths = q.deaths + 1 }
