-- ===== src/Mega/Watch.antt =====
-- `setBackends` of megatalker.cc, and the round of `doStateThread`, which finds out what backends
-- are up. What goes to the logger is left out, and so is the sum of the free kilobytes, which only
-- goes there.
pub mod Answers
use powermail.Base.{
  ℕ, ◌%◌, ◌^◌, Bool, true, false, not, ◌&&◌, List, [], ◌∷◌, ◌++◌, Option, none, some, ltb, ◌==◌,
  if◌then◌else◌, get_elem?, length,
}
use powermail.Base.Int.{ℤ, pos, to_size}
use powermail.Text.{Text, lit}
use powermail.Text.Tokens.{stringtok}
use powermail.Text.Number.{atoi}
use powermail.Net.{Result, ok, throws}
use powermail.Talker.Ppt.{PpTalker}
use powermail.Talker.Ppt
use powermail.Talker.Status.{Status}
use powermail.Talker.Status
use powermail.Backend.{TargetData}
use powermail.Mega.Shared.{Dial, refused, opened}
use powermail.Mega.Failures.{Files, backend_name, playback_log}

-- The port of a backend, as an unsigned int.
abbrev port_of : List Text → ℕ
port_of (g ∷ p ∷ a ∷ port ∷ ws) = to_size (atoi port) % 2 ^ 32
port_of _ = 1101

-- `group:priority:address:port`. The talker stands for a null pointer until the backend is up.
unfoldable pub backend : Text → PpTalker → List Text → Option TargetData
backend password nobody (g ∷ p ∷ a ∷ ws) = some (record {
  address = a;
  port = port_of (g ∷ p ∷ a ∷ ws);
  group = atoi g;
  priority = atoi p;
  up = false;
  readonly = false;
  password = password;
  used = false;
  kbfree = pos 0;
  load = 0;
  error = [];
  pp_talker = nobody;
})
backend password nobody _ = none

abbrev backend_set :
    Text
    → List TargetData
    → Option TargetData
    → (List TargetData → Result (Unit {0}) × List TargetData)
    → Result (Unit {0}) × List TargetData
backend_set line ts none k =
    (throws (lit "Invalid backend '" ++ (line ++ lit "' lacks fields")), ts)
backend_set line ts (some t) k = k (ts ++ (t ∷ []))

-- The backends in front of one that lacks fields are set when the exception leaves.
unfoldable pub set_backends :
    Text → PpTalker → List Text → List TargetData → Result (Unit {0}) × List TargetData
set_backends password nobody [] ts = (ok tt, ts)
set_backends password nobody (l ∷ ls) ts =
    backend_set l ts (backend password nobody (stringtok (lit ":") l))
      (set_backends password nobody ls)

-- Whether there is a state directory, the round, and what strtod makes of a load.
pub record Round : Type 0 where
  pub statedir : Bool
  pub number : ℕ
  pub strtod : Text → ℕ

-- `s_statedir.empty() && !(round%60)`
unfoldable pub stat_due : Round → Bool
stat_due r = not r.statedir && r.number % 60 == 0

abbrev pub loaded : Round → TargetData → Option Text → TargetData
loaded r t none = t
loaded r t (some l) = record t { load = r.strtod l }

abbrev pub stated : Round → TargetData → Status → PpTalker → TargetData
stated r t s p = loaded r (record t { kbfree = s.kbytes; pp_talker = p }) s.load

-- With an exception the backend is down.
abbrev pub stat_up : Round → TargetData → Result Status × PpTalker → TargetData
stat_up r t (ok s, p) = stated r t s p
stat_up r t (throws e, p) = record t { up = false; pp_talker = p }

abbrev pub pinged_up : Round → TargetData → Result Bool × PpTalker → TargetData
pinged_up r t (throws e, p) = record t { up = false; pp_talker = p }
pinged_up r t (ok ro, p) =
    let u = record t { readonly = ro; pp_talker = p } in
    if stat_due r then stat_up r u (Status.stat p) else u

unfoldable pub check_up : Round → TargetData → TargetData
check_up r t = pinged_up r t (Ppt.ping t.pp_talker)

-- The talker goes on with the log of the backend, where there is a state directory.
abbrev pub replay : Round → TargetData → Files → TargetData × Files
replay r t fs =
    if r.statedir
    then (
      record t { pp_talker = (playback_log (backend_name t) t.pp_talker fs).0 },
      (playback_log (backend_name t) t.pp_talker fs).1,
    )
    else (t, fs)

-- With an exception of `stat`, the backend is up already.
abbrev pub stat_down : Round → TargetData → Files → Result Status × PpTalker → TargetData × Files
stat_down r t fs (ok s, p) = replay r (stated r t s p) fs
stat_down r t fs (throws e, p) = (record t { error = e; pp_talker = p }, fs)

abbrev pub pinged_down : Round → TargetData → Files → Result Bool × PpTalker → TargetData × Files
pinged_down r t fs (throws e, p) = (record t { error = e; pp_talker = p }, fs)
pinged_down r t fs (ok ro, p) =
    let u = record t { readonly = ro; up = true; error = []; pp_talker = p } in
    if stat_due r then stat_down r u fs (Status.stat p) else replay r u fs

abbrev pub connected :
    Round → TargetData → Files → Result (Unit {0}) × PpTalker → TargetData × Files
connected r t fs (throws e, p) = (record t { error = e }, fs)
connected r t fs (ok _, p) = pinged_down r t fs (Ppt.ping p)

abbrev pub dialled : Round → TargetData → Files → Dial → TargetData × Files
dialled r t fs (refused e) = (record t { error = e }, fs)
dialled r t fs (opened io) =
    connected r t fs (Ppt.connect t.address t.port t.password (record { script = io; sent = [] }))

-- A round's part for one backend; the connection that is dialled is the network's, where one is.
unfoldable pub check : Round → Dial → TargetData → Files → TargetData × Files
check r d t fs = if t.up then (check_up r t, fs) else dialled r t fs d

-- The round over all backends, each with what dialling it would do.
unfoldable pub check_all : Round → List (Dial × TargetData) → Files → List TargetData × Files
check_all r [] fs = ([], fs)
check_all r ((d, t) ∷ ts) fs =
    let here = check r d t fs in let later = check_all r ts here.1 in (here.0 ∷ later.0, later.1)
