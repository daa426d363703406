-- ===== src/Smtp.antt =====
-- smtpsession.cc: an SMTP session, fed with lines.
pub mod Commands
pub mod Envelope
pub mod Data
pub mod Lines
pub mod Session
use powermail.Base.{
  ℕ, ◌+◌, Bool, true, false, List, [], ◌∷◌, ◌++◌, Option, none, some, if◌then◌else◌,
}
use powermail.Base.Int.{ℤ, pos, to_int32, to_size}
use powermail.Text.{Text, lit, empty}
use powermail.Text.Number.{itoa, atoi}
use powermail.UserBase.{UserBase, MboxData}
use powermail.Mega.Shared.{Shared, MegaTalker}

-- `quitNow` of `quit_t` is set nowhere.
pub data Quit : Type 0 where
  no_quit please_quit please_die : Quit

-- What a session consults: the user base, the arguments, the host's name, and the date of a
-- Received line. `max_msg_kb` is the argument's text.
pub record Config : Type 0 where
  pub users : UserBase
  pub own_name : Text
  pub hostname : Text
  pub listen_address : Text
  pub max_msg_kb : Text
  pub advertisement : Text
  pub greetings_banner : Text
  pub version : Text
  pub date : Text

-- `sender` is `d_from`. `megatalker` is `none` where the pointer is null. `times` is what the next
-- calls of `gettimeofday` yield, and `counter` is `s_counter`.
pub record Smtp : Type 0 where
  pub remote : Text
  pub quotaneeded : Bool
  pub kbroom : ℤ
  pub databytes : ℕ
  pub fromset : Bool
  pub sender : Text
  pub index : Text
  pub recipients : List MboxData
  pub addressees : List Text
  pub subject : Text
  pub indata : Bool
  pub inheaders : Bool
  pub multipart : Bool
  pub boundary : Text
  pub megatalker : Option MegaTalker
  pub esmtpkbsize : ℕ
  pub shared : Shared
  pub times : List Text
  pub counter : ℕ

-- `pass` is a return of false, `crash` a step on a null pointer or an element that is not there.
pub data Outcome : Type 0 where
  pass : Outcome
  reply : Text → Quit → Outcome
  crash : Outcome

abbrev pub say : Text → Smtp → Outcome × Smtp
say r s = (reply r no_quit, s)

-- A command that failed on the way, with its response, or went on; the MegaTalker is at hand.
abbrev pub Step : Type 0
Step = Option Text × MegaTalker × Smtp

-- The constructor. `d_quotaneeded`, `d_kbroom` and the like get a value where MAIL is read.
unfoldable pub start : Text → Shared → List Text → ℕ → Smtp
start remote shared times counter = record {
  remote = remote;
  quotaneeded = false;
  kbroom = pos 0;
  databytes = 0;
  fromset = false;
  sender = [];
  index = [];
  recipients = [];
  addressees = [];
  subject = [];
  indata = false;
  inheaders = false;
  multipart = false;
  boundary = [];
  megatalker = none;
  esmtpkbsize = 0;
  shared = shared;
  times = times;
  counter = counter;
}

unfoldable pub rset_session : Smtp → Smtp
rset_session s = record s {
  sender = [];
  quotaneeded = true;
  kbroom = pos 0;
  databytes = 0;
  fromset = false;
  recipients = [];
  addressees = [];
  subject = [];
  megatalker = none;
}

abbrev pub time_of : List Text → Text
time_of [] = []
time_of (t ∷ ts) = t

abbrev pub later : List Text → List Text
later [] = []
later (t ∷ ts) = ts

unfoldable pub make_index : Config → Smtp → Text
make_index c s =
    time_of s.times ++ (lit ":" ++ (c.own_name ++ (lit "." ++ itoa (to_int32 s.counter))))

-- `args().paramAsNum("max-msg-kb")`
abbrev pub max_msg : Config → ℤ
max_msg c = atoi c.max_msg_kb

abbrev pub name_of : Config → Text
name_of c = if empty c.hostname then c.own_name else c.hostname

unfoldable pub get_banner : Config → Text
get_banner c =
    lit "220 "
    ++ (name_of c
        ++ (lit " ESMTP"
            ++ ((if empty c.greetings_banner
                  then lit " PowerSMTP " ++ c.version
                  else c.greetings_banner)
                ++ lit "\r\n")))
