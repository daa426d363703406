-- ===== src/Mega/Storage.antt =====
-- `openStorage` and `addRemote` of megatalker.cc: the connections that a message goes to.
pub mod Intact
use powermail.Base.{
  ℕ, zero, suc, ◌+◌, ◌≤◌, ◌<◌, ◌≡◌, ◌↔◌, refl, ap, ◌∙◌, true, false, List, [], ◌∷◌, ◌++◌, arith,
  ltb, ◌==◌, if◌then◌else◌, length, length-append,
}
use powermail.Text.{Text, lit}
use powermail.Net.{Result, ok, throws, Conn}
use powermail.Talker.{pp, smtp}
use powermail.Talker.Ppt.{PpTalker}
use powermail.Talker.Ppt
use powermail.Talker.Smtpt.{SmtpTalker}
use powermail.Talker.Smtpt
use powermail.Backend.{TargetData}
use powermail.ServerSel.{Choice, no_server, server, get_server, select}
use powermail.Mega.Shared.{Dial, refused, opened, Shared, MegaTalker}

-- The state of a run of `openStorage`.
pub record Run : Type 0 where
  pub mega : MegaTalker
  pub shared : Shared

-- The `random()` of the next `getServer`, and the numbers of its shuffle.
abbrev next_random : List (ℕ × List ℕ) → ℕ × List ℕ
next_random [] = (0, [])
next_random (r ∷ rs) = r

abbrev rest {ℓ} : {A : Type ℓ} → List A → List A
rest [] = []
rest (x ∷ xs) = xs

abbrev pp_connected : Run → TargetData → Result (Unit {0}) × PpTalker → Run
pp_connected s t (ok _, p) = record s {
  mega = record s.mega {
    talkers =
        s.mega.talkers
        ++ (record { talker = pp p; address = t.address; port = t.port; alive = true } ∷ []);
  };
}
pp_connected s t (throws r, p) = s

abbrev take_dial : Run → Run
take_dial s = record s { shared = record s.shared { dials = rest s.shared.dials } }

-- `new PPTalker(…)` and the `push_back`; a failure is logged only.
abbrev dial_pp : Run → TargetData → List Dial → Run
dial_pp s t [] = s
dial_pp s t (refused r ∷ ds) = s
dial_pp s t (opened io ∷ ds) =
    pp_connected s t (Ppt.connect t.address t.port t.password (record { script = io; sent = [] }))

abbrev connect_pp : Run → TargetData → Run
connect_pp s t = dial_pp (take_dial s) t s.shared.dials

abbrev take_random : Run → Run
take_random s = record s { shared = record s.shared { randoms = rest s.shared.randoms } }

-- The loop, with `n` rounds to go and the selector's vector.
unfoldable pub open_rounds : ℕ → List TargetData → Run → Run
open_rounds zero td s = s
open_rounds (suc n) td s =
    elim (get_server s.shared.spread (next_random s.shared.randoms).0
      (next_random s.shared.randoms).1 td) [
        | no_server ↦ s
        | server t td' ↦ open_rounds n td' (connect_pp (take_random s) t)
      ]

unfoldable pub open_storage : Run → Result (Unit {0}) × Run
unfolding open_rounds
open_storage s =
    let s' = open_rounds s.shared.redundancy (select s.shared.targets) s in
    if length s'.mega.talkers == 0
    then (throws (lit "No backends available, unable to function"), s')
    else if ltb (length s'.mega.talkers) s'.shared.redundancy
    then (ok tt, record s' { mega = record s'.mega { degraded = true } })
    else (ok tt, s')

abbrev remote_added : Run → Text → Text → Result (Unit {0}) × SmtpTalker → Result (Unit {0}) × Run
remote_added s to index (ok _, t) = (
  ok tt,
  record s {
    mega = record s.mega {
      talkers =
          s.mega.talkers
          ++ (record {
            talker = smtp t;
            address = s.shared.sender_address;
            port = s.shared.sender_port;
            alive = true;
          }
              ∷ []);
      index = index;
    };
  },
)
remote_added s to index (throws r, t) =
    (throws (lit "Announcing remote <" ++ (to ++ (lit "> to sender failed: " ++ r))), s)

abbrev announce : Text → Result (Unit {0}) × SmtpTalker → Result (Unit {0}) × SmtpTalker
announce to (ok _, t) = Smtpt.add_recipient to [] t
announce to (throws r, t) = (throws r, t)

abbrev nowhere : Conn
nowhere = record { script = []; sent = [] }

abbrev no_smtp : SmtpTalker
no_smtp = record { conn = nowhere; inmsg = false; closed = true }

abbrev dial_smtp : Text → Text → Text → List Dial → Result (Unit {0}) × SmtpTalker
dial_smtp hostname from to [] = (throws (lit "Session error connecting: "), no_smtp)
dial_smtp hostname from to (refused r ∷ ds) =
    (throws (lit "Session error connecting: " ++ r), no_smtp)
dial_smtp hostname from to (opened io ∷ ds) =
    announce to (Smtpt.connect hostname from (record { script = io; sent = [] }))

unfoldable pub add_remote : Text → Text → Text → Run → Result (Unit {0}) × Run
add_remote from to index s =
    remote_added (take_dial s) to index (dial_smtp s.shared.hostname from to s.shared.dials)

pp_connected-bounds :
    (s : Run) (t : TargetData) (r : Result (Unit {0}) × PpTalker)
    → (length s.mega.talkers ≤ length (pp_connected s t r).mega.talkers)
      × (length (pp_connected s t r).mega.talkers ≤ length s.mega.talkers + 1)
      × ((pp_connected s t r).mega.degraded ≡ s.mega.degraded)
      × ((pp_connected s t r).shared.redundancy ≡ s.shared.redundancy)
pp_connected-bounds s t (ok a, p) = (omega (arith, added), omega (arith, added), refl, refl)
  where
    added :
        length (
          s.mega.talkers
          ++ (record { talker = pp p; address = t.address; port = t.port; alive = true } ∷ []))
        ≡ length s.mega.talkers + 1
    added =
        length-append s.mega.talkers
          (record { talker = pp p; address = t.address; port = t.port; alive = true } ∷ [])
pp_connected-bounds s t (throws r, p) = (omega arith, omega arith, refl, refl)

abbrev Grows : ℕ → Run → Run → Type 0
Grows n s s' =
    (length s.mega.talkers ≤ length s'.mega.talkers)
    × (length s'.mega.talkers ≤ length s.mega.talkers + n)
    × (s'.mega.degraded ≡ s.mega.degraded)
    × (s'.shared.redundancy ≡ s.shared.redundancy)

dial_pp-Grows : (s : Run) (t : TargetData) (ds : List Dial) → Grows 1 s (dial_pp s t ds)
dial_pp-Grows s t [] = (omega arith, omega arith, refl, refl)
dial_pp-Grows s t (refused r ∷ ds) = (omega arith, omega arith, refl, refl)
dial_pp-Grows s t (opened io ∷ ds) =
    pp_connected-bounds s t
      (Ppt.connect t.address t.port t.password (record { script = io; sent = [] }))

Grows-trans : (n : ℕ) (s t u : Run) → Grows 1 s t → Grows n t u → Grows (suc n) s u
Grows-trans n s t u g h = (omega arith, omega arith, h.2 ∙ g.2, h.3 ∙ g.3)

open_rounds-Grows : (n : ℕ) (td : List TargetData) (s : Run) → Grows n s (open_rounds n td s)
unfolding open_rounds
open_rounds-Grows zero td s = (omega arith, omega arith, refl, refl)
open_rounds-Grows (suc n) td s =
    go
      (get_server s.shared.spread (next_random s.shared.randoms).0 (next_random s.shared.randoms).1
        td)
      (λ td' s'. open_rounds-Grows n td' s')
  where
    go :
        (c : Choice)
        → ((td' : List TargetData) (s' : Run) → Grows n s' (open_rounds n td' s'))
        → Grows (suc n) s (elim c [
          | no_server ↦ s
          | server t td' ↦ open_rounds n td' (connect_pp (take_random s) t)
        ])
    go no_server h = (omega arith, omega arith, refl, refl)
    go (server t td') h =
        Grows-trans n s (connect_pp (take_random s) t)
          (open_rounds n td' (connect_pp (take_random s) t))
          (dial_pp-Grows (take_dial (take_random s)) t s.shared.dials)
          (h td' (connect_pp (take_random s) t))

-- Opened on a new MegaTalker, the storage has at least one backend and at most as many as the
-- redundancy asks for, or the call throws; it is degraded exactly when there are fewer.
pub open_storage_lem :
    (s s' : Run)
    → s.mega.talkers ≡ []
    → s.mega.degraded ≡ false
    → open_storage s ≡ (ok tt, s')
    → (0 < length s'.mega.talkers)
      × (length s'.mega.talkers ≤ s.shared.redundancy)
      × ((s'.mega.degraded ≡ true) ↔ (length s'.mega.talkers < s.shared.redundancy))
unfolding open_storage
open_storage_lem s s' e d h =
    ground (arith, open_rounds-Grows s.shared.redundancy (select s.shared.targets) s, ap length e)
