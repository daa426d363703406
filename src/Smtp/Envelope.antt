-- ===== src/Smtp/Envelope.antt =====
-- `eatFrom` and `eatTo` of smtpsession.cc: the sender and the recipients of a message.
use powermail.Base.{
  ℕ, ◌+◌, ◌-◌, ◌/◌, Bool, true, false, not, ◌&&◌, ◌||◌, List, [], ◌∷◌, ◌++◌, Option, none, some,
  if◌then◌else◌, ◌==◌, drop,
}
use powermail.Base.Int.{ℤ, pos, negsuc, to_int32, to_size}
use powermail.Text.{Text, lit, starts_with, is_space, from}
use powermail.Text.Tokens.{stringtok}
use powermail.Text.Number.{itoa, atoi}
use powermail.Net.{Result, ok, throws}
use powermail.UserBase.{UserBase, Lookup, unavailable, absent, present}
use powermail.Mega.Shared.{MegaTalker, create}
use powermail.Mega.Storage.{Run, add_remote}
use powermail.Smtp.{Config, Smtp, Outcome, pass, say, make_index, later}
use powermail.Smtp.Commands.{blanks}

-- The loop over the address, up to `>` or, without a `<`, to a blank.
abbrev address_until : Bool → Text → Text
address_until lt [] = []
address_until lt (c ∷ s) = if c == b'>' || not lt && is_space c then [] else c ∷ address_until lt s

unfoldable pub extract_address : Text → Text
extract_address [] = []
extract_address (c ∷ s) =
    if is_space c
    then extract_address s
    else if c == b'<'
    then address_until true s
    else address_until false (c ∷ s)

-- A quotient of C rounds to 0.
abbrev over_1024 : ℤ → ℤ
over_1024 (pos n) = pos (n / 1024)
over_1024 (negsuc n) = if (n + 1) / 1024 == 0 then pos 0 else negsuc ((n + 1) / 1024 - 1)

abbrev last : List Text → Option Text
last [] = none
last (w ∷ []) = some w
last (w ∷ v ∷ ws) = last (v ∷ ws)

-- The SIZE of the last word, in kbytes, where there is one.
unfoldable pub esmtp_size : Text → Option ℕ
esmtp_size line = elim (last (stringtok blanks line)) [
  | none ↦ none
  | some w ↦
      if starts_with (lit "SIZE=") w then some (to_size (over_1024 (atoi (drop 5 w)))) else none
]

abbrev pub sized : Option ℕ → Smtp → Outcome × Smtp
sized size s =
    let text =
      lit "250 Started message <" ++ (s.index ++ (lit "> for sender <" ++ (s.sender ++ lit ">"))) in
    elim size [
      | none ↦ say text s
      | some kb ↦
          say (text ++ (lit " with ESMTP size of " ++ (itoa (to_int32 kb) ++ lit " kbytes")))
            (record s { esmtpkbsize = kb })
    ]

abbrev pub begun : Config → Text → Smtp → Smtp
begun c line s = record s {
  index = make_index c s;
  times = later s.times;
  counter = s.counter + 1;
  sender = extract_address (drop 10 line);
  fromset = true;
  quotaneeded = true;
  kbroom = pos 0;
  esmtpkbsize = 0;
}

unfoldable pub eat_from : Config → Text → Smtp → Outcome × Smtp
unfolding extract_address esmtp_size
eat_from c line s =
    if starts_with (lit "MAIL FROM:") line
    then (if s.fromset
        then say (lit "503 Sender already given") s
        else sized (esmtp_size line) (begun c line s))
    else (pass, s)

-- `tries[1]`
unfoldable pub catch_all : Text → Text
catch_all to = b'*' ∷ from (b'@' ∷ []) to

abbrev pub lookup_again : UserBase → Text → Lookup → Lookup
lookup_again users dest (unavailable e) = unavailable e
lookup_again users dest (absent e) = users.mbox_data dest [] []
lookup_again users dest (present md pw) = present md pw

-- The loop over the two tries.
unfoldable pub lookup_recipient : UserBase → Text → Lookup
unfolding catch_all
lookup_recipient users to = lookup_again users (catch_all to) (users.mbox_data to [] [])

abbrev pub mega_of : Smtp → MegaTalker
mega_of s = elim s.megatalker [ none ↦ create | some m ↦ m ]

abbrev pub at_run : Smtp → Run → Smtp
at_run s r = record s { megatalker = some r.mega; shared = r.shared }

abbrev pub run_of : Smtp → Run
run_of s = record { mega = mega_of s; shared = s.shared }

abbrev pub forwarded : Text → Text → Smtp → Result (Unit {0}) × Run → Outcome × Smtp
forwarded to dest s (ok _, r) =
    say (lit "250 Will forward message <" ++ (s.index ++ (lit "> to <" ++ (dest ++ lit ">"))))
      (record (at_run s r) { addressees = s.addressees ++ (to ∷ []) })
forwarded to dest s (throws e, r) =
    say (lit "450 Not able to forward to <" ++ (dest ++ (lit ">: " ++ e))) (at_run s r)

abbrev pub recipient_known : Text → Smtp → Lookup → Outcome × Smtp
recipient_known to s (unavailable e) = say (lit "450 " ++ e) s
recipient_known to s (absent e) = say (lit "550 " ++ e) s
recipient_known to s (present md pwcorrect) =
    if md.is_forward
    then forwarded to md.fwd_dest s (add_remote s.sender md.fwd_dest s.index (run_of s))
    else say (lit "250 Added recipient '" ++ (to ++ (lit "' to message <" ++ (s.index ++ lit ">"))))
        (record s {
          recipients = s.recipients ++ (md ∷ []);
          addressees = s.addressees ++ (to ∷ []);
        })

unfoldable pub eat_to : Config → Text → Smtp → Outcome × Smtp
unfolding lookup_recipient extract_address
eat_to c line s =
    if starts_with (lit "RCPT TO:") line
    then (if s.fromset
        then recipient_known (extract_address (drop 8 line)) s
            (lookup_recipient c.users (extract_address (drop 8 line)))
        else say (lit "503 First specify sender") s)
    else (pass, s)
