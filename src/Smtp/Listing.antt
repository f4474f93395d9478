-- ===== src/Smtp/Listing.antt =====
-- What LIST shows of a mailbox file that holds whole mails.
use cn_assignments.Base.{
  is_space, skip_spaces, ℕ, ◌+◌, ◌<◌, ◌≡◌, refl, ap, ◌∙◌, true, false, inl, inr, Bytes, List, [],
  ◌∷◌, ◌++◌, length, All, some, codes, take, pos, print_int, starts_with, same_text, unlines,
  IsLine, Outcome, done, ◌>>=◌, arith, append_assoc, drop, Bool-cases,
}
use cn_assignments.Smtp.{Mailboxes, ok_response, mailbox_path, validate_email}
use cn_assignments.Smtp.Reading.{
  lines_of, is_header, is_separator, token, scan_date, list_entry, list_lines, handle_list,
}
use cn_assignments.Smtp.Storage.{mail_lines}
use cn_assignments.Smtp.Retrieval.{lines_of-unlines}

pub record Mail : Type 0 where
  pub sender : Bytes
  pub date : Bytes
  pub body : List Bytes

-- A sender and a date that fit, the date one word, and no separator within the text.
pub record IsMail (m : Mail) : Type 0 where
  pub sender_fits : length m.sender < 100
  pub date_fits : length m.date < 20
  pub date_nonempty : 0 < length m.date
  pub one_word : All (λ c. is_space c ≡ false) m.date
  pub no_separator : All (λ line. is_separator line ≡ false) m.body

token-word : (t : Bytes) → All (λ c. is_space c ≡ false) t → token t ≡ (t, [])
unfolding token
token-word [] h = refl
token-word (c ∷ t) h = ground (arith, token-word t h.1, h.0)

skip_spaces-word : (t : Bytes) → All (λ c. is_space c ≡ false) t → skip_spaces (32 ∷ t) ≡ t
unfolding skip_spaces is_space
skip_spaces-word [] h = ground arith
skip_spaces-word (c ∷ t) h = let k = h.0 in ground arith

scan_date-word :
    (date old : Bytes)
    → All (λ c. is_space c ≡ false) date
    → 0 < length date
    → scan_date (codes "Date: " ++ date) old ≡ date
unfolding scan_date starts_with
scan_date-word date old h p =
    let k : token (skip_spaces (32 ∷ date)) ≡ (date, []) =
      ap token (skip_spaces-word date h) ∙ token-word date h in
    ground arith

list_separator :
    (n : ℕ) (d : Bytes) (rest : List Bytes)
    → list_lines n true d (codes "---" ∷ rest) ≡ list_lines n false d rest
unfolding list_lines same_text starts_with
list_separator n d [] = refl
list_separator n d (line ∷ rest) = refl

list_inside :
    (n : ℕ) (d line : Bytes) (rest : List Bytes)
    → is_separator line ≡ false
    → list_lines n true d (line ∷ rest) ≡ list_lines n true d rest
unfolding list_lines
list_inside n d line [] h = ground arith
list_inside n d line (next ∷ rest) h = elim (Bool-cases (is_header line)) [
  | inl t ↦ ground arith
  | inr u ↦ ground arith
]

list_body :
    (n : ℕ) (d : Bytes) (body rest : List Bytes)
    → All (λ line. is_separator line ≡ false) body
    → list_lines n true d (body ++ codes "---" ∷ rest) ≡ list_lines n false d rest
list_body n d [] rest h = list_separator n d rest
list_body n d (line ∷ body) rest h =
    list_inside n d line (body ++ codes "---" ∷ rest) h.0 ∙ list_body n d body rest h.1

abbrev add_entry : ℕ → Mail → Outcome (List Bytes) → Outcome (List Bytes)
add_entry n m o = o >>= λ entries. done (list_entry n m.sender m.date ∷ entries)

list_header :
    (n : ℕ) (d date line next : Bytes) (rest : List Bytes)
    → is_header line ≡ true
    → is_separator next ≡ false
    → scan_date next d ≡ date
    → length (drop 6 line) < 100
    → length date < 20
    → list_lines n false d (line ∷ next ∷ rest) ≡ (
        list_lines (n + 1) true date rest >>= λ es.
        done (list_entry (n + 1) (drop 6 line) date ∷ es))
unfolding list_lines
list_header n d date line next rest h s e p q = ground arith

list_mail :
    (n : ℕ) (d : Bytes) (m : Mail) (rest : List Bytes)
    → IsMail m
    → list_lines n false d (mail_lines m.sender m.date m.body ++ rest)
      ≡ add_entry (n + 1) m (list_lines (n + 1) false m.date rest)
unfolding starts_with same_text
list_mail n d m rest v =
    list_header n d m.date (codes "From: " ++ m.sender) (codes "Date: " ++ m.date)
      (m.body ++ codes "---" ∷ [] ++ rest) refl refl
      (scan_date-word m.date d v.one_word v.date_nonempty) v.sender_fits v.date_fits
    ∙ ap (λ lines. add_entry (n + 1) m (list_lines (n + 1) true m.date lines))
        (append_assoc m.body (codes "---" ∷ []) rest)
    ∙ ap (add_entry (n + 1) m) (list_body (n + 1) m.date m.body rest v.no_separator)

-- the lines of a file of mails, and what LIST says of them
abbrev pub file_lines : List Mail → List Bytes
file_lines [] = []
file_lines (m ∷ mails) = mail_lines m.sender m.date m.body ++ file_lines mails

-- A line is cut to the 1023 bytes that its array holds.
abbrev pub entries : ℕ → List Mail → List Bytes
entries n [] = []
entries n (m ∷ mails) =
    take 1023 (
      print_int (pos n)
      ++ codes ": Email from "
      ++ m.sender
      ++ codes " ("
      ++ m.date
      ++ codes ")\r\n")
    ∷ entries (n + 1) mails

list_mails :
    (n : ℕ) (d : Bytes) (mails : List Mail)
    → All IsMail mails
    → list_lines n false d (file_lines mails) ≡ done (entries (n + 1) mails)
unfolding list_lines list_entry
list_mails n d [] v = refl
list_mails n d (m ∷ mails) v =
    list_mail n d m (file_lines mails) v.0
    ∙ ap (add_entry (n + 1) m) (list_mails (n + 1) m.date mails v.1)

-- LIST of a file of whole mails, whose texts have no separator, whose senders and dates fit and
-- whose lines fit the buffer, answers OK and for each mail in order the line "n: Email from sender
-- (date)", numbered from 1 and cut to 1023 bytes; lines of a text that look like a header are not counted.
pub handle_list_lem :
    (date : Bytes) (m : Mailboxes) (args : Bytes) (mails : List Mail)
    → validate_email args ≡ true
    → m.files (mailbox_path args) ≡ some (unlines (file_lines mails))
    → All (IsLine 1023) (file_lines mails)
    → All IsMail mails
    → handle_list date m args ≡ done (ok_response ∷ entries 1 mails)
unfolding handle_list
handle_list_lem date m args mails a file lines v =
    let ls : list_lines 0 false date (lines_of (unlines (file_lines mails)))
        ≡ done (entries 1 mails) =
      ap (list_lines 0 false date) (lines_of-unlines (file_lines mails) lines)
      ∙ list_mails 0 date mails v in
    ground arith
