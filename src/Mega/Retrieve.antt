-- ===== src/Mega/Retrieve.antt =====
-- `blastMessageFD` of megatalker.cc: a message is fetched from one of the backends that list it.
use powermail.Base.{
  ℕ, ◌%◌, List, [], ◌∷◌, ◌++◌, Option, none, some, length, get_elem?, if◌then◌else◌,
}
use powermail.Base.Int.{ℤ}
use powermail.Text.{Text, lit, eq}
use powermail.Net.{Result, ok, throws}
use powermail.Talker.Ppt.{PpTalker, MsgInfo}
use powermail.Talker.Ppt
use powermail.Talker.Retrieve.{Client, blast}
use powermail.Backend.{TargetData}
use powermail.Mega.Shared.{Dial, refused, opened, MegaTalker}

-- The backend once for each line of its listing that has the index.
unfoldable pub listed : Text → TargetData → List MsgInfo → List TargetData
listed index t [] = []
listed index t (j ∷ js) = if eq index j.index then t ∷ listed index t js else listed index t js

unfoldable pub candidates : Text → List (TargetData × List MsgInfo) → List TargetData
unfolding listed
candidates index [] = []
candidates index ((t, infos) ∷ ls) = listed index t infos ++ candidates index ls

-- The outcome for the session, and its client.
abbrev pub Fetched : Type 0
Fetched = Result (Unit {0}) × Client

abbrev reason : Text → Text
reason e = lit "While retrieving message: " ++ e

abbrev fetched : Result (Unit {0}) × PpTalker × Client → Fetched
fetched (ok _, t, c) = (ok tt, c)
fetched (throws e, t, c) = (throws (reason e), c)

abbrev connected : Text → Text → ℕ → ℤ → Client → Result (Unit {0}) × PpTalker → Fetched
connected mbox index size limit c (ok _, t) = fetched (blast mbox index size limit c t)
connected mbox index size limit c (throws e, t) = (throws (reason e), c)

abbrev fetch_from : Text → Text → ℕ → ℤ → Client → List Dial → Option TargetData → Fetched
fetch_from mbox index size limit c ds none = (throws (lit "Index unavailable"), c)
fetch_from mbox index size limit c [] (some t) = (throws (reason []), c)
fetch_from mbox index size limit c (refused e ∷ ds) (some t) = (throws (reason e), c)
fetch_from mbox index size limit c (opened io ∷ ds) (some t) =
    connected mbox index size limit c
      (Ppt.connect t.address t.port t.password (record { script = io; sent = [] }))

abbrev pub next_dials : Option TargetData → List Dial → List Dial
next_dials none ds = ds
next_dials (some t) [] = []
next_dials (some t) (d ∷ ds) = ds

-- `r` is the position of the candidate that `random_shuffle` puts first.
unfoldable pub blast_message :
    Text → ℕ → ℤ → ℕ → Client → MegaTalker → List Dial → Fetched × List Dial
unfolding candidates
blast_message index size limit r c m ds =
    let cs = candidates index m.mega_data in
    let t = get_elem? cs (r % length cs) in
    (fetch_from m.mbox index size limit c ds t, next_dials t ds)
