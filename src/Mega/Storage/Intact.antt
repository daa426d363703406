-- ===== src/Mega/Storage/Intact.antt =====
-- `openStorage` and `addRemote` give no talker up: what they connect is alive.
use powermail.Base.{ℕ, zero, suc, ◌≡◌, refl, true, List, [], ◌∷◌, ◌++◌, ltb, ◌==◌, if-rule, length}
use powermail.Text.{Text}
use powermail.Net.{Result, ok, throws}
use powermail.Talker.Ppt.{PpTalker}
use powermail.Talker.Ppt
use powermail.Talker.Smtpt.{SmtpTalker}
use powermail.Backend.{TargetData}
use powermail.ServerSel.{Choice, no_server, server, get_server, select}
use powermail.Mega.Shared.{Dial, refused, opened, TalkerData}
use powermail.Mega.Deliver.Redundancy.{AllAlive, Sound}
use powermail.Mega.Storage.{
  Run, pp_connected, dial_pp, connect_pp, take_random, take_dial, next_random, open_rounds,
  open_storage, remote_added, dial_smtp, add_remote,
}

AllAlive-append :
    (ds : List TalkerData) (d : TalkerData)
    → d.alive ≡ true
    → AllAlive ds
    → AllAlive (ds ++ (d ∷ []))
AllAlive-append [] d h a = (h, tt)
AllAlive-append (x ∷ ds) d h a = (a.0, AllAlive-append ds d h a.1)

pp_connected-Sound :
    (s : Run) (t : TargetData) (r : Result (Unit {0}) × PpTalker)
    → Sound s.mega
    → Sound (pp_connected s t r).mega
pp_connected-Sound s t (ok a, p) q = λ d. AllAlive-append s.mega.talkers _ refl (q d)
pp_connected-Sound s t (throws r, p) q = q

dial_pp-Sound :
    (s : Run) (t : TargetData) (ds : List Dial) → Sound s.mega → Sound (dial_pp s t ds).mega
dial_pp-Sound s t [] q = q
dial_pp-Sound s t (refused r ∷ ds) q = q
dial_pp-Sound s t (opened io ∷ ds) q =
    pp_connected-Sound s t
      (Ppt.connect t.address t.port t.password (record { script = io; sent = [] })) q

open_rounds-Sound :
    (n : ℕ) (td : List TargetData) (s : Run) → Sound s.mega → Sound (open_rounds n td s).mega
unfolding open_rounds
open_rounds-Sound zero td s q = q
open_rounds-Sound (suc n) td s q =
    go
      (get_server s.shared.spread (next_random s.shared.randoms).0 (next_random s.shared.randoms).1
        td)
      (λ td' s'. open_rounds-Sound n td' s')
  where
    go :
        (c : Choice)
        → ((td' : List TargetData) (s' : Run) → Sound s'.mega → Sound (open_rounds n td' s').mega)
        → Sound
            (elim c as (λ _. Run) [
              | no_server ↦ s
              | server t td' ↦ open_rounds n td' (connect_pp (take_random s) t)
            ]).mega
    go no_server h = q
    go (server t td') h =
        h td' (connect_pp (take_random s) t)
          (dial_pp-Sound (take_dial (take_random s)) t s.shared.dials q)

pub open_storage-Sound : (s : Run) → Sound s.mega → Sound (open_storage s).1.mega
unfolding open_storage
open_storage-Sound s q =
    let s' = open_rounds s.shared.redundancy (select s.shared.targets) s in
    let h : Sound s'.mega = open_rounds-Sound s.shared.redundancy (select s.shared.targets) s q in
    let Q : Result (Unit {0}) × Run → Type 0 = λ r. Sound r.1.mega in
    if-rule Q (length s'.mega.talkers == 0) h
      (if-rule Q (ltb (length s'.mega.talkers) s'.shared.redundancy) (λ d. cc) h)

remote_added-Sound :
    (s : Run) (to index : Text) (r : Result (Unit {0}) × SmtpTalker)
    → Sound s.mega
    → Sound (remote_added s to index r).1.mega
remote_added-Sound s to index (ok a, t) q = λ d. AllAlive-append s.mega.talkers _ refl (q d)
remote_added-Sound s to index (throws r, t) q = q

pub add_remote-Sound :
    (sender to index : Text) (s : Run) → Sound s.mega → Sound (add_remote sender to index s).1.mega
unfolding add_remote
add_remote-Sound sender to index s q =
    remote_added-Sound (take_dial s) to index (dial_smtp s.shared.hostname sender to s.shared.dials)
      q
