-- ===== src/Delivery/Message/Place.antt =====
-- Where delivery.cc keeps a message: a directory for each mailbox, and one name for each message.
use powermail.Base.{
  ℕ, suc, ◌+◌, ◌≡◌, refl, sym, ap, ◌∙◌, some, [], ◌∷◌, ◌++◌, arith, length, drop, take-append,
  drop-append,
}
use powermail.Text.{Text, lit, find}
use powermail.Text.Clean.{clean_after, clean_slashes}
use powermail.Delivery.{dohash, level_one, level_two, two_digits}
use powermail.Delivery.Message.{calc_maildir, tmp_path, cur_path, dest_at, dest_of}

-- Two mailboxes never share a directory, although their names may have the same hash.
pub calc_maildir_injective : (root a b : Text) → calc_maildir root a ≡ calc_maildir root b → a ≡ b
unfolding calc_maildir dohash level_one level_two two_digits
calc_maildir_injective root a b h = ap (drop 7) (
    sym (drop-append root (dohash a ++ a))
    ∙ ap (drop (length root)) h
    ∙ drop-append root (dohash b ++ b))

drop_more-append : (n : ℕ) (r s : Text) → drop (length r + n) (r ++ s) ≡ drop n s
drop_more-append n [] s = ap (λ k. drop k s) (omega arith)
drop_more-append n (c ∷ r) s =
    let e : length (c ∷ r) + n ≡ suc (length r + n) = omega arith in
    ap (λ k. drop k (c ∷ (r ++ s))) e ∙ drop_more-append n r s

clean_twice :
    (prev : ℕ) (r s : Text)
    → clean_after prev (r ++ (lit "/cur/" ++ (b'/' ∷ s)))
      ≡ clean_after prev (r ++ (lit "/cur/" ++ s))
unfolding clean_after lit
clean_twice prev [] s = ground arith
clean_twice prev (c ∷ r) s = ground (arith, clean_twice c r s)

clean_slashes_twice :
    (r s : Text)
    → clean_slashes (r ++ (lit "/cur/" ++ (b'/' ∷ s))) ≡ clean_slashes (r ++ (lit "/cur/" ++ s))
unfolding clean_slashes clean_after lit
clean_slashes_twice [] s = refl
clean_slashes_twice (c ∷ r) s = ap (◌∷◌ c) (clean_twice c r s)

past_tmp : (s : Text) → drop 4 (lit "/tmp/" ++ s) ≡ b'/' ∷ s
unfolding lit
past_tmp s = refl

dest_of_at :
    (r s : Text)
    → find (lit "/tmp/") (r ++ (lit "/tmp/" ++ s)) ≡ some (length r)
    → dest_of (r ++ (lit "/tmp/" ++ s)) ≡ r ++ (lit "/cur/" ++ (b'/' ∷ s))
unfolding dest_of
dest_of_at r s h =
    let t = lit "/tmp/" ++ s in
    ap (dest_at (r ++ t)) h
    ∙ ap (λ u. u ++ (lit "/cur/" ++ drop (length r + 4) (r ++ t))) (take-append r t)
    ∙ ap (λ u. r ++ (lit "/cur/" ++ u)) (drop_more-append 4 r t ∙ past_tmp s)

-- Where the first `/tmp/` in the name of a message is that behind its mailbox, a commit moves it to
-- where `get` and `del` look for it, up to a doubled slash.
pub dest_of-tmp_path :
    (root m i : Text)
    → find (lit "/tmp/") (tmp_path root m i) ≡ some (length (calc_maildir root m))
    → clean_slashes (dest_of (tmp_path root m i)) ≡ clean_slashes (cur_path root m i)
unfolding tmp_path cur_path
dest_of-tmp_path root m i h =
    ap clean_slashes (dest_of_at (calc_maildir root m) i h)
    ∙ clean_slashes_twice (calc_maildir root m) i
