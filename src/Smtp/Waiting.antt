-- ===== src/Smtp/Waiting.antt =====
-- handle_list and handle_get_mail (mysmtp_server.c) never wait: they answer, or an array overflows.
use cn_assignments.Base.{
  ℕ, ◌+◌, ◌==◌, ltb, not, ◌&&◌, ◌||◌, Bool, true, false, Option, none, some, ℤ, pos, negsuc, Bytes,
  List, [], ◌∷◌, ◌++◌, length, drop, codes, if◌then◌else◌, Outcome, done, blocked, fault, ◌>>=◌,
  skip_spaces,
}
use cn_assignments.Smtp.{max_email_size, ok_response, Mailboxes, mailbox_path, validate_email}
use cn_assignments.Smtp.Reading.{
  lines_of, is_header, is_separator, scan_date, scan_int, token, list_lines, handle_list, Fetch,
  add_text, Next, go, stop, get_line, get_lines, no_mail, fetch_mail, handle_get_mail,
}

-- an outcome other than waiting
abbrev pub NeverWaits {ℓ} : {A : Type ℓ} → Outcome A → Type 0
NeverWaits (done a) = Unit
NeverWaits blocked = ⊥
NeverWaits fault = Unit

bind-NeverWaits {ℓ κ} :
    {A : Type ℓ} {B : Type κ} (o : Outcome A) (f : A → Outcome B)
    → NeverWaits o
    → ((a : A) → NeverWaits (f a))
    → NeverWaits (o >>= f)
bind-NeverWaits (done a) f h k = k a
bind-NeverWaits blocked f h k = absurd h
bind-NeverWaits fault f h k = tt

if-NeverWaits {ℓ} :
    {A : Type ℓ} (b : Bool) (x y : Outcome A)
    → NeverWaits x
    → NeverWaits y
    → NeverWaits (if b then x else y)
if-NeverWaits true x y h k = h
if-NeverWaits false x y h k = k

elim-NeverWaits {ℓ} :
    {A : Type ℓ} (b : Bool) (x y : Outcome A)
    → NeverWaits x
    → NeverWaits y
    → NeverWaits (elim b [ false ↦ x | true ↦ y ])
elim-NeverWaits true x y h k = k
elim-NeverWaits false x y h k = h

list_lines-NeverWaits :
    (n : ℕ) (reading : Bool) (date : Bytes) (lines : List Bytes)
    → NeverWaits (list_lines n reading date lines)
unfolding list_lines
list_lines-NeverWaits n reading date [] = tt
list_lines-NeverWaits n reading date (line ∷ []) =
    if-NeverWaits (is_header line && not reading) _ _
      (if-NeverWaits (ltb (length (drop 6 line)) 100) _ _ tt tt) tt
list_lines-NeverWaits n reading date (line ∷ next ∷ lines) =
    let date' = scan_date next date in
    elim-NeverWaits (is_header line && not reading) _ _
      (list_lines-NeverWaits n (reading && not (is_separator line)) date (next ∷ lines))
      (if-NeverWaits (not (ltb (length (drop 6 line)) 100 && ltb (length date') 20)) _ _ tt (
        bind-NeverWaits (list_lines (n + 1) (not (is_separator next)) date' lines) _
          (list_lines-NeverWaits (n + 1) (not (is_separator next)) date' lines) (λ es. tt)))

file-NeverWaits :
    (file : Option Bytes) (none_sent : List Bytes) (f : Bytes → Outcome (List Bytes))
    → ((b : Bytes) → NeverWaits (f b))
    → NeverWaits (elim file [ none ↦ done none_sent | some b ↦ f b ])
file-NeverWaits none none_sent f h = tt
file-NeverWaits (some b) none_sent f h = h b

pub handle_list-NeverWaits :
    (date : Bytes) (m : Mailboxes) (args : Bytes) → NeverWaits (handle_list date m args)
unfolding handle_list
handle_list-NeverWaits date m args = if-NeverWaits (not (validate_email args)) _ _ tt (
    file-NeverWaits (m.files (mailbox_path args)) _ _ (λ file.
      bind-NeverWaits (list_lines 0 false date (lines_of file)) _
        (list_lines-NeverWaits 0 false date (lines_of file)) (λ es. tt)))

add_text-NeverWaits : (f : Fetch) (text : Bytes) → NeverWaits (add_text f text)
add_text-NeverWaits f text =
    if-NeverWaits (ltb (length f.response + length text) max_email_size) _ _ tt tt

get_line-NeverWaits : (id : ℕ) (f : Fetch) (line : Bytes) → NeverWaits (get_line id f line)
unfolding get_line
get_line-NeverWaits id f line =
    let text = ok_response ++ line ++ codes "\r\n" in
    let g = record f { email_id = f.email_id + 1; found = true; reading_email = true } in
    if-NeverWaits (is_header line && not f.reading_email) _ _
      (if-NeverWaits (f.email_id + 1 == id) _ _
        (bind-NeverWaits (add_text g text) _ (add_text-NeverWaits g text) (λ h. tt)) tt)
      (if-NeverWaits (not f.reading_email) _ _ tt (
        if-NeverWaits (is_separator line) _ _ tt (
          bind-NeverWaits (add_text f (line ++ codes "\r\n")) _
            (add_text-NeverWaits f (line ++ codes "\r\n")) (λ h. tt))))

next-NeverWaits :
    (id : ℕ) (lines : List Bytes) (n : Next)
    → ((g : Fetch) → NeverWaits (get_lines id g lines))
    → NeverWaits (elim n [ go g ↦ get_lines id g lines | stop g ↦ done g ])
next-NeverWaits id lines (go g) h = h g
next-NeverWaits id lines (stop g) h = tt

get_lines-NeverWaits : (id : ℕ) (f : Fetch) (lines : List Bytes) → NeverWaits (get_lines id f lines)
unfolding get_lines
get_lines-NeverWaits id f [] = tt
get_lines-NeverWaits id f (line ∷ lines) =
    bind-NeverWaits (get_line id f line) _ (get_line-NeverWaits id f line)
      (λ n. next-NeverWaits id lines n (λ g. get_lines-NeverWaits id g lines))

fetch_mail-NeverWaits :
    (m : Mailboxes) (email : Bytes) (id : ℕ) → NeverWaits (fetch_mail m email id)
unfolding fetch_mail
fetch_mail-NeverWaits m email id = file-NeverWaits (m.files (mailbox_path email)) _ _ (λ file.
    bind-NeverWaits (get_lines id no_mail (lines_of file)) _
      (get_lines-NeverWaits id no_mail (lines_of file)) (λ f. tt))

number-NeverWaits :
    (o : Option ℤ) (x : List Bytes) (f : ℕ → Outcome (List Bytes))
    → ((n : ℕ) → NeverWaits (f n))
    → NeverWaits (elim o [ none ↦ done x | some (negsuc n) ↦ done x | some (pos n) ↦ f n ])
number-NeverWaits none x f h = tt
number-NeverWaits (some (negsuc n)) x f h = tt
number-NeverWaits (some (pos n)) x f h = h n

pub handle_get_mail-NeverWaits :
    (m : Mailboxes) (args : Bytes) → NeverWaits (handle_get_mail m args)
unfolding handle_get_mail
handle_get_mail-NeverWaits m args =
    let t = token (skip_spaces args) in
    if-NeverWaits (not (ltb (length t.0) 100)) _ _ tt (
      number-NeverWaits (scan_int (skip_spaces t.1)) _ _ (λ id.
        if-NeverWaits ((length t.0 == 0) || not (validate_email t.0) || (id == 0)) _ _ tt
          (fetch_mail-NeverWaits m t.0 id)))
