-- ===== src/Delivery/Hash.antt =====
-- Where delivery.cc puts a mailbox: the hash directories of `dohash`.
use Prim.Native.Nat.{bit_xor}
use powermail.Base.{
  ℕ, ◌+◌, ◌*◌, ◌/◌, ◌%◌, ◌^◌, ◌<◌, ◌≡◌, refl, ap, ◌∙◌, [], ◌∷◌, ◌++◌, map, arith, length, All,
}
use powermail.Text.{Text, to_upper}
use powermail.Delivery.{
  folded, extended, hash_from, hash_x, hash_y, two_digits, level_one, level_two, dohash,
}

folded-to_upper : (c : ℕ) → c < 256 → folded (to_upper c) ≡ folded c
unfolding folded to_upper
folded-to_upper c h = ground arith

hash_from-to_upper :
    (h : ℕ) (s : Text) → All (λ c. c < 256) s → hash_from h (map to_upper s) ≡ hash_from h s
unfolding hash_from
hash_from-to_upper h [] b = refl
hash_from-to_upper h (c ∷ s) b =
    let mix : ℕ → ℕ = λ k. bit_xor ((h * 32 + h) % 2 ^ 64) (extended k) in
    ap (λ k. hash_from (mix k) (map to_upper s)) (folded-to_upper c b.0)
    ∙ hash_from-to_upper (mix (folded c)) s b.1

of_hash : ℕ → Text
unfolding two_digits
of_hash h =
    (b'/' ∷ two_digits (h % 100)) ++ ((b'/' ∷ two_digits ((h % 10000) / 100)) ++ (b'/' ∷ []))

-- The names of a mailbox that differ in the case of their letters have the same hash directories.
pub dohash-to_upper : (m : Text) → All (λ c. c < 256) m → dohash (map to_upper m) ≡ dohash m
unfolding dohash level_two level_one hash_x hash_y of_hash
dohash-to_upper m b = ap of_hash (hash_from-to_upper 5381 m b)

pub length-dohash : (m : Text) → length (dohash m) ≡ 7
unfolding dohash level_two level_one two_digits
length-dohash m = refl
