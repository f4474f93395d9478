-- ===== src/Smtp/Reading.antt =====
-- handle_list and handle_get_mail: the mailbox file read line by line.
use cn_assignments.Base.{
  print_int, ℕ, zero, suc, ◌+◌, ◌-◌, Bool, true, false, not, ◌&&◌, ◌||◌, Option, none, some, ltb,
  ◌==◌, if◌then◌else◌, Bytes, List, [], ◌∷◌, ◌++◌, length, take, drop, codes, starts_with,
  same_text, fgets, chomp, Outcome, done, fault, ◌>>=◌, ℤ, pos, negsuc, is_space, skip_spaces,
  digits, is_digit_first,
}
use cn_assignments.Smtp.{
  max_email_size, ok_response, invalid_syntax, not_found, Mailboxes, validate_email, mailbox_path,
}

-- The texts that repeated `fgets` into 1024 bytes yields, without their newlines; a file has at most
-- as many lines as bytes.
unfoldable pub read_lines : ℕ → Bytes → List Bytes
read_lines zero file = []
read_lines (suc n) [] = []
read_lines (suc n) (c ∷ file) =
    let line = fgets 1023 (c ∷ file) in chomp line.0 ∷ read_lines n line.1

abbrev pub lines_of : Bytes → List Bytes
lines_of file = read_lines (length file) file

-- `%s` behind white space: the token, and what follows it
unfoldable pub token : Bytes → Bytes × Bytes
token [] = ([], [])
token (c ∷ text) =
    let rest = token text in if is_space c then ([], c ∷ text) else (c ∷ rest.0, rest.1)

abbrev pub unsigned : Bool → Bytes → Option ℤ
unsigned minus text =
    if not (is_digit_first text)
    then none
    else let n = digits 0 text in if minus && ltb 0 n then some (negsuc (n - 1)) else some (pos n)

-- `%d` behind white space, for numbers that an int holds
unfoldable pub scan_int : Bytes → Option ℤ
scan_int [] = none
scan_int (c ∷ text) =
    if c == b'-'
    then unsigned true text
    else if c == b'+'
    then unsigned false text
    else unsigned false (c ∷ text)

-- `sscanf(line, "Date: %s", date)`: the old value stays if the line has no date
unfoldable pub scan_date : Bytes → Bytes → Bytes
scan_date line old =
    let t = (token (skip_spaces (drop 5 line))).0 in
    if not (starts_with (codes "Date:") line) then old else if length t == 0 then old else t

unfoldable pub list_entry : ℕ → Bytes → Bytes → Bytes
list_entry email_id sender date = take 1023 (
    print_int (pos email_id)
    ++ codes ": Email from "
    ++ sender
    ++ codes " ("
    ++ date
    ++ codes ")\r\n")

abbrev pub is_header : Bytes → Bool
is_header line = starts_with (codes "From: ") line

abbrev pub is_separator : Bytes → Bool
is_separator line = same_text line (codes "---")

-- The loop of `handle_list`: the sender has room for 99 bytes, the date for 19.
unfoldable pub list_lines : ℕ → Bool → Bytes → List Bytes → Outcome (List Bytes)
list_lines email_id reading_header date [] = done []
list_lines email_id reading_header date (line ∷ []) =
    if is_header line && not reading_header
    then (if ltb (length (drop 6 line)) 100
        then done (list_entry (email_id + 1) (drop 6 line) date ∷ [])
        else fault)
    else done []
list_lines email_id reading_header date (line ∷ next ∷ lines) =
    elim (is_header line && not reading_header) [
      | false ↦ list_lines email_id (reading_header && not (is_separator line)) date (next ∷ lines)
      | true ↦
          let date' = scan_date next date in
          if not (ltb (length (drop 6 line)) 100 && ltb (length date') 20)
          then fault
          else list_lines (email_id + 1) (not (is_separator next)) date' lines >>= λ entries.
              done (list_entry (email_id + 1) (drop 6 line) date' ∷ entries)
    ]

-- `date` is what the array holds before the first date is read into it.
unfoldable pub handle_list : Bytes → Mailboxes → Bytes → Outcome (List Bytes)
handle_list date m args =
    if not (validate_email args)
    then done (invalid_syntax ∷ [])
    else elim (m.files (mailbox_path args)) [
      | none ↦ done (not_found ∷ [])
      | some file ↦
          list_lines 0 false date (lines_of file) >>= λ entries. done (ok_response ∷ entries)
    ]

-- the variables of the loop of `handle_get_mail`
pub record Fetch : Type 0 where
  pub email_id : ℕ
  pub found : Bool
  pub reading_email : Bool
  pub response : Bytes

-- `strcat` to the response
abbrev pub add_text : Fetch → Bytes → Outcome Fetch
add_text f text =
    if ltb (length f.response + length text) max_email_size
    then done (record f { response = f.response ++ text })
    else fault

-- how a turn of the loop ends
pub data Next : Type 0 where
  go : Fetch → Next
  stop : Fetch → Next

-- One line: the header of a mail, a line of the mail that it copies, or another.
unfoldable pub get_line : ℕ → Fetch → Bytes → Outcome Next
get_line id f line =
    if is_header line && not f.reading_email
    then (let g = record f { email_id = f.email_id + 1 } in
        if g.email_id == id
        then (add_text (record g { found = true; reading_email = true })
              (ok_response ++ line ++ codes "\r\n")
            >>= λ h. done (go h))
        else done (go g))
    else if not f.reading_email
    then done (go f)
    else if is_separator line
    then done (stop (record f { reading_email = false }))
    else add_text f (line ++ codes "\r\n") >>= λ h. done (go h)

-- The loop of `handle_get_mail`, which ends at the separator of the mail that it copies.
unfoldable pub get_lines : ℕ → Fetch → List Bytes → Outcome Fetch
get_lines id f [] = done f
get_lines id f (line ∷ lines) =
    get_line id f line >>= λ n. elim n [ go g ↦ get_lines id g lines | stop g ↦ done g ]

abbrev pub no_mail : Fetch
no_mail = record { email_id = 0; found = false; reading_email = false; response = [] }

-- `fopen`, the loop and the answer
unfoldable pub fetch_mail : Mailboxes → Bytes → ℕ → Outcome (List Bytes)
fetch_mail m email id = elim (m.files (mailbox_path email)) [
  | none ↦ done (not_found ∷ [])
  | some file ↦ get_lines id no_mail (lines_of file) >>= λ f.
      done ((if f.found then f.response else not_found) ∷ [])
]

-- `sscanf` with "%s %d": the address has room for 99 bytes.
unfoldable pub handle_get_mail : Mailboxes → Bytes → Outcome (List Bytes)
handle_get_mail m args =
    let t = token (skip_spaces args) in
    if not (ltb (length t.0) 100) then fault else elim (scan_int (skip_spaces t.1)) [
      | none ↦ done (invalid_syntax ∷ [])
      | some (negsuc n) ↦ done (invalid_syntax ∷ [])
      | some (pos id) ↦
          if (length t.0 == 0) || not (validate_email t.0) || (id == 0)
          then done (invalid_syntax ∷ [])
          else fetch_mail m t.0 id
    ]
