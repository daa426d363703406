-- ===== src/Pool/Handle.antt =====
-- `PoolClass::Handle` of pool.hh: the thing that `get` returns, and its count of copies.
use powermail.Base.{ℕ, ◌+◌, ◌≡◌, refl, Option, none, some, ◌==◌, if◌then◌else◌}
use powermail.Pool.{Pool, give_back, stock_push, invalidate}

-- `thing` is `none` once the handle was invalidated. The parent is the pool that each call takes.
pub record Handle : Type 0 where
  pub thing : Option ℕ
  pub count : ℕ

unfoldable pub create : ℕ → Handle
create t = record { thing = some t; count = 1 }

-- The copy constructor: the original, whose `mutable` count it raises, and the copy, which takes
-- the count before that.
unfoldable pub copy : Handle → Handle × Handle
copy h = (record h { count = h.count + 1 }, h)

-- The destructor: `!--d_count` holds at a count of one.
unfoldable pub destroy : Handle → Pool → Pool
destroy h p = if h.count == 1 then elim h.thing [ none ↦ p | some t ↦ give_back t p ] else p

-- A handle with no thing has `died` called all the same, and deletes a null pointer.
unfoldable pub invalidate_handle : Handle → Pool → Handle × Pool
invalidate_handle h p =
    (record h { thing = none }, elim h.thing [ none ↦ stock_push p | some t ↦ invalidate t p ])

-- The count is not shared by the copies: the first copy of a handle gives the thing back when it
-- is destroyed, although the original still holds it, and the original then never does.
pub destroy-copy :
    (t : ℕ) (p q : Pool)
    → (destroy (copy (create t)).1 p ≡ give_back t p)
      × ((copy (create t)).0.thing ≡ some t)
      × (destroy (copy (create t)).0 q ≡ q)
unfolding destroy copy create
destroy-copy t p q = (refl, refl, refl)
