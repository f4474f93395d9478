-- ===== src/Smtp/Retrieval.antt =====
-- What LIST and GET_MAIL find in a mailbox file.
use cn_assignments.Base.{
  ℕ, zero, suc, ◌+◌, ◌≤◌, ◌<◌, ◌≡◌, refl, sym, ap, ◌∙◌, true, false, inl, inr, if◌then◌else◌, Bytes,
  List, [], ◌∷◌, ◌++◌, length, All, some, codes, starts_with, same_text, unlines, IsLine, chomp,
  fgets-line, chomp-line, Outcome, done, ◌>>=◌, arith, length-append, append_assoc, append-nil,
  Bool-cases,
}
use cn_assignments.Smtp.{Mailboxes, ok_response, mailbox_path}
use cn_assignments.Smtp.Reading.{
  read_lines, lines_of, is_header, is_separator, Fetch, Next, go, stop, get_line, get_lines,
  no_mail, fetch_mail,
}

read_lines-line :
    (n : ℕ) (line rest : Bytes)
    → IsLine 1023 line
    → read_lines (suc n) (line ++ b'\n' ∷ rest) ≡ line ∷ read_lines n rest
unfolding read_lines
read_lines-line n [] rest h =
    let e = fgets-line 1023 [] rest h.0 h.1 in
    ap (λ (r : Bytes × Bytes). chomp r.0 ∷ read_lines n r.1) e
    ∙ ap (λ t. t ∷ read_lines n rest) (chomp-line [] h.0)
read_lines-line n (c ∷ line) rest h =
    let e = fgets-line 1023 (c ∷ line) rest h.0 h.1 in
    ap (λ (r : Bytes × Bytes). chomp r.0 ∷ read_lines n r.1) e
    ∙ ap (λ t. t ∷ read_lines n rest) (chomp-line (c ∷ line) h.0)

read_lines-unlines :
    (n : ℕ) (lines : List Bytes)
    → All (IsLine 1023) lines
    → length lines ≤ n
    → read_lines n (unlines lines) ≡ lines
unfolding read_lines unlines
read_lines-unlines zero [] h p = refl
read_lines-unlines (suc n) [] h p = refl
read_lines-unlines zero (line ∷ lines) h p = absurd (omega arith)
read_lines-unlines (suc n) (line ∷ lines) h p =
    read_lines-line n line (unlines lines) h.0
    ∙ ap (λ t. line ∷ t) (read_lines-unlines n lines h.1 (omega arith))

length-unlines : (lines : List Bytes) → length lines ≤ length (unlines lines)
unfolding unlines
length-unlines [] = omega arith
length-unlines (line ∷ lines) =
    omega (arith, length-unlines lines, length-append line (b'\n' ∷ unlines lines))

pub lines_of-unlines :
    (lines : List Bytes) → All (IsLine 1023) lines → lines_of (unlines lines) ≡ lines
lines_of-unlines lines h =
    read_lines-unlines (length (unlines lines)) lines h (length-unlines lines)

-- how many lines start like a header
abbrev pub count_headers : List Bytes → ℕ
count_headers [] = 0
count_headers (line ∷ lines) = count_headers lines + (if is_header line then 1 else 0)

-- a text with each line as GET_MAIL sends it
unfoldable pub sent_lines : List Bytes → Bytes
sent_lines [] = []
sent_lines (line ∷ lines) = line ++ codes "\r\n" ++ sent_lines lines

-- what `get_lines` does with the end of a turn
abbrev resume : ℕ → List Bytes → Outcome Next → Outcome Fetch
resume id lines o = o >>= λ n. elim n [ go g ↦ get_lines id g lines | stop g ↦ done g ]

get_line-counts :
    (id : ℕ) (f : Fetch) (line : Bytes)
    → f.reading_email ≡ false
    → f.email_id + (if is_header line then 1 else 0) < id
    → get_line id f line
      ≡ done (go (record f { email_id = f.email_id + (if is_header line then 1 else 0) }))
unfolding get_line
get_line-counts id f line h p = elim (Bool-cases (is_header line)) [
  | inl t ↦ ground arith
  | inr u ↦
      let z : f.email_id ≡ f.email_id + (if is_header line then 1 else 0) = ground arith in
      let q : get_line id f line ≡ done (go f) = ground arith in
      q ∙ ap (λ n. done (go (record f { email_id = n }))) z
]

get_line-copies :
    (id : ℕ) (f : Fetch) (line : Bytes)
    → f.reading_email ≡ true
    → is_separator line ≡ false
    → length f.response + length (line ++ codes "\r\n") < 4096
    → get_line id f line ≡ done (go (record f { response = f.response ++ (line ++ codes "\r\n") }))
unfolding get_line
get_line-copies id f line h s p = ground arith

get_line-ends :
    (id : ℕ) (f : Fetch)
    → f.reading_email ≡ true
    → get_line id f (codes "---") ≡ done (stop (record f { reading_email = false }))
unfolding get_line starts_with same_text
get_line-ends id f h = ground arith

get_line-finds :
    (id : ℕ) (f : Fetch) (line : Bytes)
    → f.reading_email ≡ false
    → is_header line ≡ true
    → f.email_id + 1 ≡ id
    → length f.response + length (ok_response ++ line ++ codes "\r\n") < 4096
    → get_line id f line
      ≡ done (
          go (record {
            email_id = f.email_id + 1;
            found = true;
            reading_email = true;
            response = f.response ++ (ok_response ++ line ++ codes "\r\n");
          }))
unfolding get_line
get_line-finds id f line h t e p = ground arith

-- Before the wanted mail only the headers are counted.
get_lines-before :
    (id : ℕ) (f : Fetch) (lines rest : List Bytes)
    → f.reading_email ≡ false
    → f.email_id + count_headers lines < id
    → get_lines id f (lines ++ rest)
      ≡ get_lines id (record f { email_id = f.email_id + count_headers lines }) rest
unfolding get_lines
get_lines-before id f [] rest h p =
    ap (λ n. get_lines id (record f { email_id = n }) rest) (omega arith)
get_lines-before id f (line ∷ lines) rest h p =
    let one : ℕ = if is_header line then 1 else 0 in
    ap (resume id (lines ++ rest)) (get_line-counts id f line h (omega arith))
    ∙ get_lines-before id (record f { email_id = f.email_id + one }) lines rest h (omega arith)
    ∙ ap (λ n. get_lines id (record f { email_id = n }) rest) (omega arith)

-- Within the wanted mail every line is copied, up to the separator.
get_lines-inside :
    (id : ℕ) (f : Fetch) (body rest : List Bytes)
    → f.reading_email ≡ true
    → All (λ line. is_separator line ≡ false) body
    → length f.response + length (sent_lines body) < 4096
    → get_lines id f (body ++ codes "---" ∷ rest)
      ≡ done (record f { reading_email = false; response = f.response ++ sent_lines body })
unfolding get_lines sent_lines
get_lines-inside id f [] rest h s p =
    ap (resume id rest) (get_line-ends id f h)
    ∙ ap (λ t. done (record f { reading_email = false; response = t }))
        (sym (append-nil f.response))
get_lines-inside id f (line ∷ body) rest h s p =
    let text = line ++ codes "\r\n" in
    let n = length-append text (sent_lines body) in
    let k = length-append f.response text in
    ap (resume id (body ++ codes "---" ∷ rest)) (get_line-copies id f line h s.0 (omega arith))
    ∙ get_lines-inside id (record f { response = f.response ++ text }) body rest h s.1 (omega arith)
    ∙ ap (λ t. done (record f { reading_email = false; response = t }))
        (append_assoc f.response text (sent_lines body))

fetch_mail-file :
    (m : Mailboxes) (email : Bytes) (id : ℕ) (file : Bytes) (lines : List Bytes) (f : Fetch)
    → m.files (mailbox_path email) ≡ some file
    → lines_of file ≡ lines
    → get_lines id no_mail lines ≡ done f
    → f.found ≡ true
    → fetch_mail m email id ≡ done (f.response ∷ [])
unfolding fetch_mail
fetch_mail-file m email id file lines f e l g t =
    let k : get_lines id no_mail (lines_of file) ≡ done f = ap (get_lines id no_mail) l ∙ g in
    ground arith

-- GET_MAIL for the number `id` of a mailbox file sends the mail that begins with the id-th line of the
-- file that starts like a header, whether or not that line stands inside the text of another mail:
-- this line and the lines behind it up to the next separator, provided they fit the response.
pub fetch_mail_lem :
    (m : Mailboxes) (email header : Bytes) (before body rest : List Bytes)
    → m.files (mailbox_path email)
      ≡ some (unlines (before ++ header ∷ (body ++ codes "---" ∷ rest)))
    → All (IsLine 1023) (before ++ header ∷ (body ++ codes "---" ∷ rest))
    → is_header header ≡ true
    → All (λ line. is_separator line ≡ false) body
    → length (ok_response ++ header ++ codes "\r\n") + length (sent_lines body) < 4096
    → fetch_mail m email (count_headers before + 1)
      ≡ done ((ok_response ++ header ++ codes "\r\n" ++ sent_lines body) ∷ [])
unfolding get_lines
fetch_mail_lem m email header before body rest file lines h s p =
    let id = count_headers before + 1 in
    let first = ok_response ++ header ++ codes "\r\n" in
    let g : Fetch = record no_mail { email_id = 0 + count_headers before } in
    let found : Fetch = record {
      email_id = 0 + count_headers before + 1;
      found = true;
      reading_email = true;
      response = first;
    } in
    let e : get_lines id no_mail (before ++ header ∷ (body ++ codes "---" ∷ rest))
        ≡ done (record found { reading_email = false; response = first ++ sent_lines body }) =
      get_lines-before id no_mail before (header ∷ (body ++ codes "---" ∷ rest)) refl (omega arith)
      ∙ ap (resume id (body ++ codes "---" ∷ rest))
          (get_line-finds id g header refl h (omega arith) (omega arith))
      ∙ get_lines-inside id found body rest refl s p in
    let ls = lines_of-unlines (before ++ header ∷ (body ++ codes "---" ∷ rest)) lines in
    fetch_mail-file m email id _ _
      (record found { reading_email = false; response = first ++ sent_lines body }) file ls e refl
