-- ===== src/Pool/Invariant.antt =====
-- The semaphore, the ownership and the count of things, over all histories of a pool.
use powermail.Base.{
  ℕ, ◌+◌, ◌-◌, ◌≤◌, ◌<◌, ◌≡◌, refl, List, [], ◌∷◌, ◌++◌, some, arith, ◌==◌, if◌then◌else◌, length,
  length-append,
}
use powermail.Pool.{
  Pool, init, get_enter, sem_wait, get_take, remove, give_back, stock_push, stock_post, invalidate,
}
use powermail.Pool.Steps.{
  count, Step, enters, waits, takes, gives_back, dies, stocks, posts, Reach, here, next,
}

-- `counted` is what the semaphore promises, `books` what `d_created` counts, `alone` and `fresh`
-- that a thing is in one place only.
pub record Inv (p : Pool) : Type 0 where
  pub counted : p.sem + p.granted + p.posting ≡ length p.available
  pub books : p.created ≡ length p.available + length p.in_use + p.deaths
  pub alone : (t : ℕ) → count t p.available + count t p.in_use ≤ 1
  pub fresh : (t : ℕ) → p.next ≤ t → count t p.available + count t p.in_use ≡ 0

count-append : (t : ℕ) (xs ys : List ℕ) → count t (xs ++ ys) ≡ count t xs + count t ys
unfolding count
count-append t [] ys = omega arith
count-append t (x ∷ xs) ys = ground (arith, count-append t xs ys)

length-remove : (t : ℕ) (xs : List ℕ) → 0 < count t xs → length (remove t xs) + 1 ≡ length xs
unfolding count remove
length-remove t [] h = absurd (omega arith)
length-remove t (x ∷ xs) h = ground (arith, length-remove t xs)

count-remove : (u t : ℕ) (xs : List ℕ) → count u (remove t xs) ≤ count u xs
unfolding count remove
count-remove u t [] = omega arith
count-remove u t (x ∷ xs) = ground (arith, count-remove u t xs)

count-remove_self : (t : ℕ) (xs : List ℕ) → 0 < count t xs → count t (remove t xs) + 1 ≡ count t xs
unfolding count remove
count-remove_self t [] h = absurd (omega arith)
count-remove_self t (x ∷ xs) h = ground (arith, count-remove_self t xs)

count_one : (t u : ℕ) → count t (u ∷ []) ≡ (if u == t then 1 else 0)
unfolding count
count_one t u = omega arith

init-Inv : (m s : ℕ) → Inv (init m s)
unfolding init count
init-Inv m s = record {
  counted = refl;
  books = refl;
  alone = λ t. omega arith;
  fresh = λ t h. refl;
}

get_enter-Inv : (p : Pool) (xs : List ℕ) → p.available ≡ xs → Inv p → Inv (get_enter p)
unfolding get_enter count
get_enter-Inv p [] e v = record {
  counted = ground (arith, v.counted);
  books = ground (arith, v.books);
  alone = λ t. ground (arith, v.alone t, v.fresh t);
  fresh = λ t h. ground (arith, v.fresh t);
}
get_enter-Inv p (x ∷ xs) e v = record {
  counted = ground (arith, v.counted);
  books = ground (arith, v.books);
  alone = λ t. ground (arith, v.alone t);
  fresh = λ t h. ground (arith, v.fresh t);
}

sem_wait-Inv : (p q : Pool) → 0 < p.waiting → sem_wait p ≡ some q → Inv p → Inv q
unfolding sem_wait
sem_wait-Inv p q w e v = record {
  counted = ground (arith, v.counted);
  books = ground (arith, v.books);
  alone = λ t. ground (arith, v.alone t);
  fresh = λ t h. ground (arith, v.fresh t);
}

get_take-Inv :
    (p q : Pool) (t : ℕ) (xs : List ℕ)
    → p.available ≡ xs
    → 0 < p.granted
    → get_take p ≡ some (t, q)
    → Inv p
    → Inv q
unfolding get_take count
get_take-Inv p q t [] a g e v = ground arith
get_take-Inv p q t (x ∷ xs) a g e v = record {
  counted = ground (arith, v.counted);
  books = ground (arith, v.books);
  alone = λ u. ground (arith, v.alone u);
  fresh = λ u h. ground (arith, v.fresh u);
}

give_back-Inv : (t : ℕ) (p : Pool) → 0 < count t p.in_use → Inv p → Inv (give_back t p)
unfolding give_back
give_back-Inv t p h v = record {
  counted = ground (arith, v.counted, length-append p.available (t ∷ []));
  books = ground (arith, v.books, length-append p.available (t ∷ []), length-remove t p.in_use h);
  alone = λ u. ground (
    arith,
    v.alone u,
    count-append u p.available (t ∷ []),
    count_one u t,
    count-remove u t p.in_use,
    count-remove_self t p.in_use h,
  );
  fresh = λ u k. ground (
    arith,
    v.fresh u,
    v.fresh t,
    count-append u p.available (t ∷ []),
    count_one u t,
    count-remove u t p.in_use,
  );
}

stock_push-Inv : (p : Pool) → Inv p → Inv (stock_push p)
unfolding stock_push count
stock_push-Inv p v = record {
  counted = ground (arith, v.counted);
  books = ground (arith, v.books);
  alone = λ u. ground (arith, v.alone u, v.fresh u);
  fresh = λ u h. ground (arith, v.fresh u);
}

invalidate-Inv : (t : ℕ) (p : Pool) → 0 < count t p.in_use → Inv p → Inv (invalidate t p)
unfolding invalidate count
invalidate-Inv t p h v = record {
  counted = ground (arith, v.counted);
  books = ground (arith, v.books, length-remove t p.in_use h);
  alone = λ u. ground (arith, v.alone u, v.fresh u, count-remove u t p.in_use);
  fresh = λ u k. ground (arith, v.fresh u, count-remove u t p.in_use);
}

stock_post-Inv : (p : Pool) → 0 < p.posting → Inv p → Inv (stock_post p)
unfolding stock_post
stock_post-Inv p h v = record {
  counted = ground (arith, v.counted);
  books = v.books;
  alone = v.alone;
  fresh = v.fresh;
}

Step-Inv : {p q : Pool} → Step p q → Inv p → Inv q
Step-Inv {p} enters v = get_enter-Inv p p.available refl v
Step-Inv {p} {q} (waits w e) v = sem_wait-Inv p q w e v
Step-Inv {p} {q} (takes {t = t} g e) v = get_take-Inv p q t p.available refl g e v
Step-Inv {p} (gives_back t h) v = give_back-Inv t p h v
Step-Inv {p} (dies t h) v = invalidate-Inv t p h v
Step-Inv {p} stocks v = stock_push-Inv p v
Step-Inv {p} (posts h) v = stock_post-Inv p h v

-- In every interleaving of the threads' critical sections and semaphore calls, from a new pool on:
-- the semaphore counts the things at hand that no thread was promised, `d_created` counts the
-- things at hand, those in use and those that died, and no thing is in two places.
pub Reach-Inv : (m s : ℕ) {p : Pool} → Reach (init m s) p → Inv p
Reach-Inv m s here = init-Inv m s
Reach-Inv m s (next r st) = Step-Inv st (Reach-Inv m s r)

get_take-some :
    (p : Pool) (xs : List ℕ)
    → p.available ≡ xs
    → Inv p
    → 0 < length xs
    → (t : ℕ) × (q : Pool) × (get_take p ≡ some (t, q))
      × (count t p.in_use ≡ 0)
      × (count t q.available ≡ 0)
      × (count t q.in_use ≡ 1)
unfolding get_take count
get_take-some p [] a v h = absurd (omega arith)
get_take-some p (x ∷ xs) a v h = (
  x,
  record p { available = xs; in_use = x ∷ p.in_use; granted = p.granted - 1 },
  ground arith,
  ground (arith, v.alone x),
  ground (arith, v.alone x),
  ground (arith, v.alone x),
)

-- In every reachable state a thread that `sem_wait` let through finds a thing at the front of the
-- deque, that nobody held before; then it alone holds it, and the deque does not have it any more.
pub Reach-get_take :
    (m s : ℕ) {p : Pool}
    → Reach (init m s) p
    → 0 < p.granted
    → (t : ℕ) × (q : Pool) × (get_take p ≡ some (t, q))
      × (count t p.in_use ≡ 0)
      × (count t q.available ≡ 0)
      × (count t q.in_use ≡ 1)
Reach-get_take m s {p} r g =
    let v = Reach-Inv m s r in get_take-some p p.available refl v (omega (arith, v.counted))
