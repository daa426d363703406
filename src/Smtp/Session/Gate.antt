-- ===== src/Smtp/Session/Gate.antt =====
-- When the DATA of smtpsession.cc lets a message in.
use powermail.Base.Int.{pos, ltb_ℤ, to_int32}
use powermail.Base.{
  ◌≡◌, refl, arith, ◌==◌, Bool, true, false, Option, none, some, Bool-cases, inl, inr, ◌⊎◌,
}
use powermail.Text.{Text, eq, eq_iff, lit}
use powermail.Mega.Shared.{MegaTalker}
use powermail.Smtp.{Config, Smtp, Step, max_msg}
use powermail.Smtp.Commands.{is_zero}
use powermail.Smtp.Data.{too_large, no_destination, invited, finish_data, prepare, eat_data}
use powermail.Smtp.Session.Steps.{Idle}
use powermail.Smtp.Session.DataSteps.{prepare-Going}

some-ne-none : {r : Text} → some r ≡ none → ⊥
some-ne-none h = cc

invited-fits :
    (c : Config) (o : Option Text) (m : MegaTalker) (s : Smtp)
    → too_large c s ≡ o
    → s.indata ≡ false
    → (invited c o m s).1.indata ≡ true
    → too_large c (invited c o m s).1 ≡ none
unfolding too_large
invited-fits c (some r) m s h d e = cc
invited-fits c none m s h d e = h

finish_data-fits :
    (c : Config) (r : Step)
    → r.2.indata ≡ false
    → (finish_data c r).1.indata ≡ true
    → (r.0 ≡ none) × (too_large c (finish_data c r).1 ≡ none)
finish_data-fits c (some r, m, s) d e = cc
finish_data-fits c (none, m, s) d e = (refl, invited-fits c (too_large c s) m s refl d e)

not-both : {b : Bool} → b ≡ false → b ≡ true → ⊥
not-both h k = cc

-- There is no quota, or there is room, and an announced size, as an int, fits in it and in the
-- limit.
abbrev pub Fits : Config → Smtp → Type 0
Fits c t =
    (t.quotaneeded ≡ false)
    ⊎ ((ltb_ℤ (pos 0) t.kbroom ≡ true)
        × ((t.esmtpkbsize ≡ 0)
            ⊎ ((ltb_ℤ t.kbroom (to_int32 t.esmtpkbsize) ≡ false)
                × ((is_zero (max_msg c) ≡ true)
                    ⊎ (ltb_ℤ (max_msg c) (to_int32 t.esmtpkbsize) ≡ false)))))

too_large-Fits : (c : Config) (t : Smtp) → too_large c t ≡ none → Fits c t
unfolding too_large
too_large-Fits c t h = elim (Bool-cases t.quotaneeded) [
  | inr q ↦ inl q
  | inl q ↦ elim (Bool-cases (ltb_ℤ (pos 0) t.kbroom)) [
    | inr r ↦ absurd (some-ne-none (simp (q, r) at h))
    | inl r ↦ elim (Bool-cases (t.esmtpkbsize == 0)) [
      | inl z ↦ inr (r, inl (ground (arith, z)))
      | inr z ↦ elim (Bool-cases (ltb_ℤ t.kbroom (to_int32 t.esmtpkbsize))) [
        | inl k ↦ absurd (some-ne-none (simp (q, r, z, k) at h))
        | inr k ↦ elim (Bool-cases (is_zero (max_msg c))) [
          | inl m ↦ inr (r, inr (k, inl m))
          | inr m ↦ elim (Bool-cases (ltb_ℤ (max_msg c) (to_int32 t.esmtpkbsize))) [
            | inl w ↦ absurd (some-ne-none (simp (q, r, z, k, m, w) at h))
            | inr w ↦ inr (r, inr (k, inr w))
          ]
        ]
      ]
    ]
  ]
]

-- What holds where a message is let in: `t` is the session behind the command.
abbrev pub LetIn : Config → Text → Smtp → Smtp → Type 0
LetIn c l s t =
    (l ≡ lit "DATA")
    × (s.fromset ≡ true)
    × (no_destination s.recipients s.megatalker ≡ false)
    × ((prepare s).0 ≡ none)
    × Fits c t

-- Between messages, DATA lets one in only behind a sender and a recipient or a MegaTalker at hand,
-- where every step of the preparation went well. Where the session keeps a quota, there is room
-- left, and a size that was announced is within that room, and within max-msg-kb, where that is not
-- 0. Where it keeps no quota, nothing is said of the announced size.
pub eat_data-LetIn :
    (c : Config) (l : Text) (s : Smtp)
    → Idle s
    → (eat_data c l s).1.indata ≡ true
    → LetIn c l s (eat_data c l s).1
unfolding eat_data
eat_data-LetIn c l s q h = elim (Bool-cases (eq l (lit "DATA"))) [
  | inr e ↦ absurd (not-both q.1 (simp e at h))
  | inl e ↦ elim (Bool-cases s.fromset) [
    | inr f ↦ absurd (not-both q.1 (simp (e, f) at h))
    | inl f ↦ elim (Bool-cases (no_destination s.recipients s.megatalker)) [
      | inl g ↦ absurd (not-both q.1 (simp (e, f, g) at h))
      | inr g ↦
          let (a, b) =
            finish_data-fits c (prepare s) (prepare-Going s q f).1 (simp (e, f, g) at h) in
          (
            (eq_iff l (lit "DATA")).0 e,
            f,
            g,
            a,
            simp (e, f, g) (too_large-Fits c (finish_data c (prepare s)).1 b),
          )
    ]
  ]
]
