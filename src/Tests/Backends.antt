-- ===== src/Tests/Backends.antt =====
-- The choice of a server, and the calls of the MegaTalker, on concrete backends.
use powermail.Base.{
  ℕ, ◌<◌, ◌≤◌, ◌≡◌, ◌↔◌, refl, inl, Bool, true, false, List, [], ◌∷◌, some, length, All,
}
use powermail.Base.Int.{pos}
use powermail.Text.{Text, lit, eq, starts_with, char_at}
use powermail.Text.Tokens.{stringtok}
use powermail.Net.{Result, ok, throws, Io, done, Conn}
use powermail.Talker.{Talker, pp}
use powermail.Talker
use powermail.Talker.Ppt.{PpTalker}
use powermail.Talker.Ppt
use powermail.Backend.{TargetData}
use powermail.ServerSel.{Spread, Choice, no_server, server, get_server, eligible}
use powermail.ServerSel.Groups.{Chosen, get_server-Chosen}
use powermail.ServerSel.Total.{get_server_none}
use powermail.Mega.Shared.{opened, Shared, TalkerData, MegaTalker, create}
use powermail.Mega.Storage.{Run, open_storage, open_storage_lem}
use powermail.Mega.Deliver.{msg_done}
use powermail.Mega.Deliver.Redundancy.{Sound, Accepts, commit, apply, apply-Sound, msg_done-Accepts}
use powermail.Mega.Index.{Msgs, IsSorted}
use powermail.Mega.Mailbox.{get_msgs, Has}
use powermail.Mega.Mailbox.Union.{BackendLists, get_msgs_lem}
use powermail.Mega.Failures.{
  Files, log_of, backend_name, delete_line, del_msg, word, playback_lines,
}
use powermail.Mega.Failures.Lost.{del_msg_overwrites, IsEntry, playback_lines_first}

abbrev connection : List Text → Conn
connection [] = record { script = []; sent = [] }
connection (l ∷ ls) = record { script = done [] ∷ (done l ∷ (connection ls).script); sent = [] }

abbrev talker : List Text → PpTalker
talker answers = record { conn = connection answers; inmsg = true; ppname = lit "store:1101" }

abbrev okay : Text
okay = lit "+OK\n"

abbrev member : List Text → TalkerData
member answers = record {
  talker = pp (talker answers);
  address = lit "store";
  port = 1101;
  alive = true;
}

abbrev two_members : MegaTalker
two_members = record create { talkers = member (okay ∷ okay ∷ []) ∷ member (okay ∷ okay ∷ []) ∷ [] }

two_members-Sound : Sound two_members
two_members-Sound = λ d. (refl, (refl, tt))

msg_done_ok : msg_done two_members ≡ (ok tt, (msg_done two_members).1)
unfolding msg_done create lit powermail.Mega.Deliver.round Talker.msg_done Ppt.msg_done Ppt.put
    powermail.Net.put_line Ppt.get powermail.Net.get_line starts_with
msg_done_ok = refl

msg_done_degraded : (msg_done two_members).1.degraded ≡ false
unfolding msg_done create lit powermail.Mega.Deliver.round Talker.msg_done Ppt.msg_done Ppt.put
    powermail.Net.put_line Ppt.get powermail.Net.get_line starts_with
msg_done_degraded = refl

msg_done-Accepts_example :
    (0 < length two_members.talkers) × All (Accepts Talker.msg_done) two_members.talkers
msg_done-Accepts_example =
    msg_done-Accepts two_members (msg_done two_members).1 two_members-Sound msg_done_ok
      msg_done_degraded

-- The second member does not answer.
abbrev one_gone : MegaTalker
one_gone = record create { talkers = member (okay ∷ okay ∷ []) ∷ member [] ∷ [] }

one_gone-Sound : Sound one_gone
one_gone-Sound = λ d. (refl, (refl, tt))

apply-Sound_example : Sound (apply commit one_gone)
apply-Sound_example = apply-Sound commit one_gone one_gone-Sound

abbrev target : ℕ → Bool → List Text → TargetData
target group up answers = record {
  address = lit "store";
  port = 1101;
  group = pos group;
  priority = pos 10;
  up = up;
  readonly = false;
  password = lit "pw";
  used = false;
  kbfree = pos 0;
  load = 0;
  error = [];
  pp_talker = talker answers;
}

abbrev listing : TargetData
listing = record (target 1 true []) {
  pp_talker = record (talker []) {
    conn = record {
      script = done [] ∷ (done okay ∷ (done (lit "17 2048\n") ∷ (done (lit ".\n") ∷ [])));
      sent = [];
    };
  };
}

get_msgs_ok : get_msgs (lit "bob") create (listing ∷ []) ≡ (
  ok ((lit "17", 2048) ∷ []),
  (get_msgs (lit "bob") create (listing ∷ [])).1,
  (get_msgs (lit "bob") create (listing ∷ [])).2,
)
unfolding get_msgs powermail.Mega.Mailbox.gather Ppt.get_msgs powermail.Net.put_line
    powermail.Net.get_line starts_with lit eq powermail.Mega.Mailbox.add_listings
    powermail.Mega.Mailbox.add_infos powermail.Mega.Index.insert stringtok
    powermail.Text.Number.digits_value
get_msgs_ok = refl

get_msgs_example :
    IsSorted ((lit "17", 2048) ∷ [])
    × ((i : Text) → Has i ((lit "17", 2048) ∷ []) ↔ BackendLists (lit "bob") i (listing ∷ []))
get_msgs_example =
    get_msgs_lem (lit "bob") create (get_msgs (lit "bob") create (listing ∷ [])).1 (listing ∷ [])
      (get_msgs (lit "bob") create (listing ∷ [])).2 ((lit "17", 2048) ∷ []) get_msgs_ok

abbrev even : Spread
even = record { favor_empty = false; favor_load = true }

abbrev vector : List TargetData
vector = record (target 1 true []) { used = true } ∷ (target 2 true [] ∷ [])

abbrev second : TargetData
second = record (target 2 true []) { used = true }

abbrev vector_after : List TargetData
vector_after = record (target 1 true []) { used = true } ∷ (second ∷ [])

get_server-second : get_server even 7 (0 ∷ []) vector ≡ server second vector_after
unfolding get_server
get_server-second = refl

get_server-Chosen_example : Chosen vector second vector_after
get_server-Chosen_example = get_server-Chosen even 7 (0 ∷ []) vector get_server-second

get_server_after : get_server even 3 [] vector_after ≡ no_server
unfolding get_server
get_server_after = refl

get_server_none_example : All (λ t. eligible vector_after t ≡ false) vector_after
get_server_none_example = get_server_none even 3 [] vector_after get_server_after

-- Two copies are wanted, and one backend is up.
abbrev shared : Shared
shared = record {
  targets = target 1 true [] ∷ (target 2 false [] ∷ []);
  redundancy = 2;
  spread = even;
  files = record { logs = []; opens = λ n. true };
  dials = opened (done okay ∷ (done [] ∷ (done okay ∷ []))) ∷ [];
  randoms = [];
  sender_address = lit "127.0.0.1";
  sender_port = 2500;
  hostname = lit "mail";
}

abbrev fresh : Run
fresh = record { mega = create; shared = shared }

open_storage_ok : open_storage fresh ≡ (ok tt, (open_storage fresh).1)
unfolding open_storage get_server powermail.ServerSel.select Ppt.connect powermail.Net.get_line
    starts_with lit powermail.Net.put_line create
open_storage_ok = refl

create-talkers : create.talkers ≡ []
unfolding create
create-talkers = refl

create-degraded : create.degraded ≡ false
unfolding create
create-degraded = refl

open_storage_example :
    (0 < length (open_storage fresh).1.mega.talkers)
    × (length (open_storage fresh).1.mega.talkers ≤ 2)
    × (((open_storage fresh).1.mega.degraded ≡ true)
        ↔ (length (open_storage fresh).1.mega.talkers < 2))
open_storage_example =
    open_storage_lem fresh (open_storage fresh).1 create-talkers create-degraded open_storage_ok

-- A log with a delete that waits for the backend.
abbrev logs : Files
logs = record {
  logs = (backend_name (target 2 false []), lit "? del ann 5" ∷ []) ∷ [];
  opens = λ n. true;
}

del_msg_example :
    log_of
      (backend_name (target 2 false []))
      (del_msg (lit "bob") (lit "17") (target 2 false [] ∷ []) logs).1
    ≡ some (delete_line (lit "bob") (lit "17") ∷ [])
del_msg_example =
    del_msg_overwrites (backend_name (target 2 false [])) (lit "bob") (lit "17")
      (target 2 false [] ∷ []) logs (inl (refl, refl)) refl

abbrev delete_5 : Text
delete_5 = lit "? del ann 5"

abbrev delete_17 : Text
delete_17 = lit "? del bob 17"

delete-IsEntry : IsEntry delete_5 × IsEntry delete_17
unfolding stringtok char_at lit
delete-IsEntry = ((refl, refl), (refl, refl))

delete-word : eq (word (stringtok (lit " \t\n") delete_5) 1) (lit "del") ≡ true
unfolding stringtok eq lit
delete-word = refl

playback_lines_example :
    ((playback_lines [] (delete_5 ∷ delete_17 ∷ []) (talker (okay ∷ []))).talker
      ≡ (Ppt.del_msg
          (word (stringtok (lit " \t\n") delete_5) 2)
          (word (stringtok (lit " \t\n") delete_5) 3)
          (talker (okay ∷ []))).1)
    × ((first : Text) × ((playback_lines [] (delete_5 ∷ delete_17 ∷ []) (talker (okay ∷ []))).lines
          ≡ first ∷ (delete_17 ∷ [])))
playback_lines_example =
    playback_lines_first delete_5 (delete_17 ∷ []) (talker (okay ∷ [])) delete-IsEntry.0
      (delete-IsEntry.1, tt) delete-word
