-- ===== src/Smtp/Delivery.antt =====
-- A mail from the lines that a user types to the mailbox file.
use cn_assignments.Base.{
  ℕ, zero, suc, ◌+◌, ◌≤◌, ◌<◌, ◌≡◌, ◌≢◌, refl, sym, ap, ◌∙◌, Bool, true, false, Option, some, Bytes,
  List, [], ◌∷◌, ◌++◌, length, All, codes, starts_with, same_text, unlines, Outcome, done, ◌>>=◌,
  arith, length-append, append_assoc, append-nil,
}
use cn_assignments.Smtp.{ClientSession, Mailboxes, Handled, content, mailbox_path}
use cn_assignments.Smtp.Service.{tokens, split_first, with_first, handle_lines, handle_received}
use cn_assignments.Smtp.MailClient.{
  buffer_size, crlf, terminated, add_text, read_body, talk, client_messages, sent_body,
}
use cn_assignments.Smtp.Storage.{
  IsToken, mail_lines, with_data, finish, data_started, data_lines, stored-unlines, saved-own,
  saved-other, sent_after,
}

-- the lines with the ends that the client gives them
abbrev pub crlf_lines : List Bytes → Bytes
crlf_lines [] = []
crlf_lines (line ∷ lines) = crlf line ++ crlf_lines lines

split_first-crlf :
    (line rest : Bytes)
    → All (λ c. (c ≢ 0) × (c ≢ b'\r') × (c ≢ b'\n')) line
    → split_first (line ++ (codes "\r\n" ++ rest)) ≡ (line, tokens rest)
unfolding split_first tokens
split_first-crlf [] rest h = refl
split_first-crlf (c ∷ line) rest h =
    let e = split_first-crlf line rest h.1 in
    let z = h.0.0 in let r = h.0.1 in let n = h.0.2 in ground arith

with_first-nonempty :
    (line : Bytes) (lines : List Bytes) → 0 < length line → with_first (line, lines) ≡ line ∷ lines
with_first-nonempty line lines h = ground arith

tokens-crlf_lines : (lines : List Bytes) → All IsToken lines → tokens (crlf_lines lines) ≡ lines
unfolding tokens split_first
tokens-crlf_lines [] h = refl
tokens-crlf_lines (line ∷ lines) h =
    let e = split_first-crlf line (crlf_lines lines) h.0.0 in
    let f = tokens-crlf_lines lines h.1 in
    ap (λ t. tokens t) (append_assoc line (codes "\r\n") (crlf_lines lines))
    ∙ ap with_first e
    ∙ ap (λ ts. with_first (line, ts)) f
    ∙ with_first-nonempty line lines h.0.1

add_text-fits :
    (text line : Bytes)
    → length text + length line < buffer_size
    → add_text text line ≡ done (text ++ line)
unfolding add_text
add_text-fits text line p = ground arith

terminated-fits :
    (line : Bytes) → length line + 2 < buffer_size → terminated line ≡ done (crlf line)
unfolding terminated
terminated-fits line p = ground arith

read_body-dot :
    (lines : List Bytes) (text : Bytes)
    → length text + 3 < buffer_size
    → read_body (codes "." ∷ lines) text ≡ done (some (text ++ codes ".\r\n"), lines)
unfolding read_body same_text
read_body-dot lines text p =
    ap (λ (o : Outcome Bytes). o >>= λ t. done (some t, lines))
      (add_text-fits text (codes ".\r\n") p)

read_body-line :
    (line : Bytes) (lines : List Bytes) (text : Bytes)
    → same_text line (codes ".") ≡ false
    → length text + (length line + 2) < buffer_size
    → read_body (line ∷ lines) text ≡ read_body lines (text ++ crlf line)
unfolding read_body
read_body-line line lines text d p =
    let n = length-append line (codes "\r\n") in
    ap
      (λ (b : Bool). elim b [
        | true ↦ add_text text (codes ".\r\n") >>= λ t. done (some t, lines)
        | false ↦ terminated line >>= λ t. add_text text t >>= λ u. read_body lines u
      ])
      d
    ∙ ap (λ (o : Outcome Bytes). o >>= λ t. add_text text t >>= λ u. read_body lines u)
        (terminated-fits line (omega arith))
    ∙ ap (λ (o : Outcome Bytes). o >>= λ u. read_body lines u)
        (add_text-fits text (crlf line) (omega (arith, n)))

read_body-lines :
    (lines rest : List Bytes) (text : Bytes)
    → All (λ line. same_text line (codes ".") ≡ false) lines
    → length text + length (crlf_lines lines) + 3 < buffer_size
    → read_body (lines ++ codes "." ∷ rest) text
      ≡ done (some (text ++ crlf_lines lines ++ codes ".\r\n"), rest)
read_body-lines [] rest text h p =
    read_body-dot rest text (omega arith)
    ∙ ap (λ (t : Bytes). done (some (t ++ codes ".\r\n"), rest)) (sym (append-nil text))
read_body-lines (line ∷ lines) rest text h p =
    let n = length-append (crlf line) (crlf_lines lines) in
    let k = length-append line (codes "\r\n") in
    let l = length-append text (crlf line) in
    read_body-line line (lines ++ codes "." ∷ rest) text h.0 (omega (arith, n, k))
    ∙ read_body-lines lines rest (text ++ crlf line) h.1 (omega (arith, n, l))
    ∙ ap (λ (t : Bytes). done (some (t ++ codes ".\r\n"), rest))
        (append_assoc text (crlf line) (crlf_lines lines))

-- the lines with which a user sends a mail
abbrev pub typed : List Bytes → List Bytes
typed body = codes "DATA" ∷ body ++ codes "." ∷ []

abbrev mail_text : List Bytes → Bytes
mail_text body = crlf_lines body ++ codes ".\r\n"

talk-end : (n : ℕ) (answers : List Bool) → talk n [] answers ≡ done []
unfolding talk
talk-end zero answers = refl
talk-end (suc n) answers = refl

client_messages-typed :
    (body : List Bytes) (answers : List Bool)
    → All (λ line. same_text line (codes ".") ≡ false) body
    → length (crlf_lines body) + 3 < buffer_size
    → client_messages (typed body) answers ≡ done (crlf (codes "DATA") ∷ mail_text body ∷ [])
unfolding talk terminated starts_with
client_messages-typed body answers h p =
    ap
      (λ (o : Outcome (Option Bytes × List Bytes)). o >>= λ b.
        talk (length (body ++ codes "." ∷ [])) b.1 answers >>= λ rest.
        done (crlf (codes "DATA") ∷ sent_body b.0 ++ rest))
      (read_body-lines body [] [] h (omega arith))
    ∙ ap
        (λ (o : Outcome (List Bytes)).
          o >>= λ rest. done (crlf (codes "DATA") ∷ mail_text body ∷ rest))
        (talk-end (length (body ++ codes "." ∷ [])) answers)

-- the messages of a client, each of which one `recv` delivers
abbrev pub deliver_all : Bytes → Bytes → ClientSession → Mailboxes → List Bytes → Outcome Handled
deliver_all date junk s m [] = done (record { session = s; mailboxes = m; sent = [] })
deliver_all date junk s m (message ∷ messages) = handle_received date junk s m message >>= λ h.
    deliver_all date junk h.session h.mailboxes messages

crlf_lines-dot : (body : List Bytes) → mail_text body ≡ crlf_lines (body ++ codes "." ∷ [])
crlf_lines-dot [] = refl
crlf_lines-dot (line ∷ body) =
    append_assoc (crlf line) (crlf_lines body) (codes ".\r\n")
    ∙ ap (λ t. crlf line ++ t) (crlf_lines-dot body)

typed-IsToken : (body : List Bytes) → All IsToken body → All IsToken (body ++ codes "." ∷ [])
typed-IsToken [] h = ground arith
typed-IsToken (line ∷ body) h = (h.0, typed-IsToken body h.1)

tokens-mail_text :
    (body : List Bytes) → All IsToken body → tokens (mail_text body) ≡ body ++ codes "." ∷ []
tokens-mail_text body h =
    ap tokens (crlf_lines-dot body)
    ∙ tokens-crlf_lines (body ++ codes "." ∷ []) (typed-IsToken body h)

unlines-crlf_lines : (body : List Bytes) → length (unlines body) ≤ length (crlf_lines body)
unfolding unlines
unlines-crlf_lines [] = omega arith
unlines-crlf_lines (line ∷ body) =
    let a = length-append line (b'\n' ∷ unlines body) in
    let b = length-append (crlf line) (crlf_lines body) in
    let c = length-append line (codes "\r\n") in omega (arith, unlines-crlf_lines body, a, b, c)

data_received :
    (date junk : Bytes) (s : ClientSession) (m : Mailboxes)
    → s.is_data_mode ≡ false
    → 0 < length s.sender
    → 0 < length s.recipient
    → (g : Handled) × (handle_received date junk s m (crlf (codes "DATA")) ≡ done g)
      × (g.session ≡ with_data s [])
      × (g.mailboxes ≡ m)
unfolding handle_received handle_lines tokens split_first
data_received date junk s m d p q = (
  _,
  ap
      (λ (o : Outcome Handled).
        o >>= λ h. handle_lines date junk h.session h.mailboxes [] >>= sent_after h.sent)
      (data_started date junk s m d p q),
  refl,
  refl,
)

text_received :
    (date junk : Bytes) (s : ClientSession) (m : Mailboxes) (body : List Bytes)
    → All IsToken body
    → All (λ line. same_text line (codes ".") ≡ false) body
    → length (crlf_lines body) < 4095
    → handle_received date junk (with_data s []) m (mail_text body)
      ≡ done (finish date s m (unlines body))
unfolding handle_received
text_received date junk s m body tok dots fits =
    ap (handle_lines date junk (with_data s []) m) (tokens-mail_text body tok)
    ∙ data_lines date junk s m [] body dots (omega (arith, unlines-crlf_lines body))

-- If a user whose session has a sender and a recipient types DATA, nonempty lines of which none is a
-- single dot, and a dot, and the text with its line ends and the dot fits one recv of the server, then the client
-- sends two messages, and on these the server appends exactly this mail to the recipient's file, if
-- it can be appended to, leaves every other file as it was, and leaves data mode.
pub typed_stored :
    (date junk : Bytes) (s : ClientSession) (m : Mailboxes) (body : List Bytes)
    (answers : List Bool) (other : Bytes)
    → s.is_data_mode ≡ false
    → 0 < length s.sender
    → 0 < length s.recipient
    → m.can_append (mailbox_path s.recipient) ≡ true
    → All IsToken body
    → All (λ line. same_text line (codes ".") ≡ false) body
    → length (crlf_lines body) + 3 < 1024
    → same_text (mailbox_path s.recipient) other ≡ false
    → (h : Handled) × ((client_messages (typed body) answers >>= deliver_all date junk s m)
        ≡ done h)
      × (h.session.is_data_mode ≡ false)
      × (h.mailboxes.files (mailbox_path s.recipient)
          ≡ some (
              content (m.files (mailbox_path s.recipient))
              ++ unlines (mail_lines s.sender date body)))
      × (h.mailboxes.files other ≡ m.files other)
typed_stored date junk s m body answers other d p q can tok dots fits o =
    let (g, start, in_data, same) = data_received date junk s m d p q in
    let text = stored-unlines date (with_data s (unlines body)) body refl in
    let t = text_received date junk s m body tok dots (omega arith) in
    let last = finish date s m (unlines body) in
    (
      record last { sent = [] },
      ap (λ (u : Outcome (List Bytes)). u >>= deliver_all date junk s m)
            (client_messages-typed body answers dots (omega arith))
          ∙ ap
              (λ (u : Outcome Handled).
                u >>= λ h. deliver_all date junk h.session h.mailboxes (mail_text body ∷ []))
              start
          ∙ ap (λ (u : ClientSession). deliver_all date junk u g.mailboxes (mail_text body ∷ []))
              in_data
          ∙ ap (λ (u : Mailboxes). deliver_all date junk (with_data s []) u (mail_text body ∷ []))
              same
          ∙ ap (λ (u : Outcome Handled). u >>= λ h. deliver_all date junk h.session h.mailboxes [])
              t,
      refl,
      saved-own date (with_data s (unlines body)) m can
          ∙ ap (λ t. some (content (m.files (mailbox_path s.recipient)) ++ t)) text,
      saved-other date (with_data s (unlines body)) m other o,
    )
