-- ===== src/Net.antt =====
-- Exceptions, and a `Session` of session.cc as its users see it: a call of `putLine` or `getLine`
-- succeeds or throws. What the socket does at each call is a script: theorems hold for all scripts.
pub mod Buffer
pub mod Write
use powermail.Base.{List, [], ◌∷◌, ◌++◌}
use powermail.Text.{Text, lit}

-- `throws r` stands for the exception that the code at that place can meet: SessionException below
-- the talkers, TalkerException and MegaTalkerException above them. `r` is its reason.
pub data Result (A : Type 0) : Type 0 where
  ok : A → Result A
  throws : Text → Result A

-- A call on a mutable object. The object keeps its changes when the call throws.
abbrev pub Exec : Type 0 → Type 0 → Type 0
Exec S A = S → Result A × S

abbrev pub pure : {S A : Type 0} → A → Exec S A
pure a s = (ok a, s)

abbrev pub throw : {S A : Type 0} → Text → Exec S A
throw r s = (throws r, s)

abbrev pub bind_result : {S A B : Type 0} → Result A × S → (A → Exec S B) → Result B × S
bind_result (ok a, s) f = f a s
bind_result (throws r, s) f = (throws r, s)

infixl 5 ◌>>=◌ ◌>>◌
abbrev pub ◌>>=◌ : {S A B : Type 0} → Exec S A → (A → Exec S B) → Exec S B
◌>>=◌ m f s = bind_result (m s) f

abbrev pub ◌>>◌ : {S B : Type 0} → Exec S (Unit {0}) → Exec S B → Exec S B
m >> k = m >>= λ _. k

-- What the next call on the socket does: a `getLine` yields the text.
pub data Io : Type 0 where
  done : Text → Io
  failed : Text → Io

pub record Conn : Type 0 where
  pub script : List Io
  pub sent : List Text

-- With the script at its end the remote is gone.
unfoldable pub next_io : List Io → Text → Result Text × List Io
next_io [] r = (throws r, [])
next_io (done t ∷ s) r = (ok t, s)
next_io (failed e ∷ s) r = (throws e, s)

abbrev get_line_result : Conn → Result Text × List Io → Result Text × Conn
get_line_result c (r, s) = (r, record c { script = s })

unfoldable pub get_line : Exec Conn Text
unfolding next_io
get_line c = get_line_result c (next_io c.script (lit "Connection closed by foreign host"))

abbrev put_line_result : Text → Conn → Result Text × List Io → Result (Unit {0}) × Conn
put_line_result t c (ok _, s) = (ok tt, record c { script = s; sent = c.sent ++ (t ∷ []) })
put_line_result t c (throws e, s) = (throws e, record c { script = s })

unfoldable pub put_line : Text → Exec Conn (Unit {0})
unfolding next_io
put_line t c = put_line_result t c (next_io c.script (lit "timeout writing line"))
