-- ===== src/Tests/Texts.antt =====
-- The string helpers, the retrieval of a message and the passwords, on concrete inputs.
use powermail.Base.{◌≡◌, ◌↔◌, refl, true, false, List, [], ◌∷◌, ◌++◌, arith, take, All}
use powermail.Base.Int.{pos, negsuc}
use powermail.Text.{Text, lit, mem, empty, eq, contains, find, starts_with}
use powermail.Text.Tokens.{stringtok, IsWord, joined, keep, join, stringtok_words}
use powermail.Text.Tokens.RoundTrip.{stringtok-join}
use powermail.Text.Clean.{clean_slashes, IsClean, gaps, clean_slashes_lem}
use powermail.Text.Number.{itoa, atoi, atoi-itoa}
use powermail.Talker.Retrieve.{blast_lines, is_dot, ends_headers}
use powermail.Talker.Retrieve.Lines.{willing, stream, wrote, blast_lines-top, blast_lines_whole}
use powermail.UserBase.{present}
use powermail.UserBase.Password.{c_str, pw_match, pw_match-md5}
use powermail.UserBase.TextBase.{
  TextBaseEntry, entry_data, entry_match, find_entry, First, find_entry-First,
}

abbrev blanks : Text
blanks = lit " \t\n"

abbrev request : Text
request = lit "  retr\t 12 \n"

stringtok_words_example :
    All (IsWord blanks) (stringtok blanks request)
    × (joined (stringtok blanks request) ≡ keep blanks request)
stringtok_words_example = stringtok_words blanks request

abbrev parts : List Text
parts = lit "1" ∷ lit "10" ∷ lit "store" ∷ []

parts-IsWord : All (IsWord (lit ":")) parts
unfolding lit mem
parts-IsWord = (
  (λ e. cc, (refl, tt)),
  ((λ e. cc, (refl, (refl, tt))), ((λ e. cc, (refl, (refl, (refl, (refl, (refl, tt)))))), tt)),
)

colon_mem : mem b':' (lit ":") ≡ true
unfolding lit mem
colon_mem = refl

stringtok-join_example : stringtok (lit ":") (join b':' parts) ≡ parts
stringtok-join_example = stringtok-join (lit ":") b':' colon_mem parts parts-IsWord

abbrev path : Text
path = lit "//var//mail/"

clean_slashes_example :
    IsClean (clean_slashes path)
    × (clean_slashes (clean_slashes path) ≡ clean_slashes path)
    × (gaps false (clean_slashes path) ≡ gaps false path)
clean_slashes_example = clean_slashes_lem path

abbrev subject : Text
subject = lit "lunch \r\n"

atoi-itoa_example : atoi (itoa (negsuc 41)) ≡ negsuc 41
atoi-itoa_example = atoi-itoa (negsuc 41) (omega arith)

abbrev dot : Text
dot = lit ".\n"

dot-is_dot : is_dot dot ≡ true
unfolding is_dot lit powermail.Text.char_at
dot-is_dot = refl

abbrev header : Text
header = lit "Subject: lunch\r\n"

abbrev body : List Text
body = lit "one\r\n" ∷ lit "two\r\n" ∷ lit "three\r\n" ∷ []

header-lines :
    (is_dot header ≡ false)
    × (ends_headers header ≡ false)
    × (is_dot (lit "\r\n") ≡ false)
    × (ends_headers (lit "\r\n") ≡ true)
unfolding is_dot ends_headers lit powermail.Text.char_at
header-lines = (refl, refl, refl, refl)

body-IsBody : All (λ l. is_dot l ≡ false) body
unfolding is_dot lit powermail.Text.char_at
body-IsBody = (refl, (refl, (refl, tt)))

blast_lines-top_example :
    blast_lines (pos 2) true 0 (stream dot dot-is_dot [] (header ∷ lit "\r\n" ∷ body)) (willing [])
    ≡ wrote dot dot-is_dot [] [] (header ∷ lit "\r\n" ∷ take 2 body)
blast_lines-top_example =
    blast_lines-top dot dot-is_dot [] 2 (header ∷ []) body [] (lit "\r\n")
      ((header-lines.0, header-lines.1), tt) header-lines.2 header-lines.3 body-IsBody

blast_lines_whole_example :
    blast_lines (negsuc 0) true 0 (stream dot dot-is_dot [] body) (willing [])
    ≡ wrote dot dot-is_dot [] [] body
blast_lines_whole_example = blast_lines_whole dot dot-is_dot [] 0 body [] body-IsBody

-- Functions in place of the hashes.
abbrev twice : Text → Text
twice s = s ++ s

abbrev first_of : Text → Text → Text
first_of s salt = s

pw_match-md5_example :
    (pw_match twice first_of (lit "ab") (lit "{md5}" ++ lit "aba") ≡ true)
    ↔ ((t : Text) × (c_str (twice (lit "ab")) ≡ c_str (lit "aba") ++ t))
pw_match-md5_example = pw_match-md5 twice first_of (lit "ab") (lit "aba")

abbrev entry : Text → TextBaseEntry
entry a = record { address = a; forward = []; password = lit "secret"; quota_kb = 5000 }

abbrev base : List TextBaseEntry
base = entry (lit "ann") ∷ entry (lit "bob") ∷ []

find_entry_bob :
    find_entry twice first_of base (lit "bob") (lit "secret") []
    ≡ present (entry_data (entry (lit "bob"))) true
unfolding find_entry entry_match pw_match contains find starts_with eq empty lit
find_entry_bob = refl

find_entry-First_example :
    (e : TextBaseEntry) × First twice first_of (lit "bob") e base
    × (entry_data (entry (lit "bob")) ≡ entry_data e)
    × (true ≡ entry_match twice first_of e (lit "secret") [])
    × ((entry_data (entry (lit "bob"))).canonical_mbox ≡ lit "bob")
find_entry-First_example =
    find_entry-First twice first_of base (lit "bob") (lit "secret") []
      (entry_data (entry (lit "bob"))) true find_entry_bob
