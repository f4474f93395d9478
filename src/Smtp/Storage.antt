-- ===== src/Smtp/Storage.antt =====
-- A mail from the DATA command to the mailbox file.
use cn_assignments.Base.{
  ◌+◌, ◌<◌, ◌≡◌, ◌≢◌, refl, sym, ap, ◌∙◌, true, false, Bytes, List, [], ◌∷◌, ◌++◌, length, All,
  some, codes, starts_with, same_text, unlines, Outcome, done, ◌>>=◌, arith, length-append,
  append_assoc, append-nil,
}
use cn_assignments.Smtp.{
  ClientSession, Mailboxes, Handled, handle_data, handle_data_content, save_email, stored, content,
  mailbox_path,
}
use cn_assignments.Smtp.Service.{
  process_command, handle_line, handle_lines, handle_received, tokens, split_first, with_first,
}

-- the lines of a mail in a mailbox file
abbrev pub mail_lines : Bytes → Bytes → List Bytes → List Bytes
mail_lines sender date body =
    (codes "From: " ++ sender) ∷ (codes "Date: " ++ date) ∷ (body ++ codes "---" ∷ [])

-- a line that strtok yields again
abbrev pub IsToken : Bytes → Type 0
IsToken line = All (λ c. (c ≢ 0) × (c ≢ b'\r') × (c ≢ b'\n')) line × (0 < length line)

split_first-line :
    (line rest : Bytes)
    → All (λ c. (c ≢ 0) × (c ≢ b'\r') × (c ≢ b'\n')) line
    → split_first (line ++ b'\n' ∷ rest) ≡ (line, tokens rest)
unfolding split_first tokens
split_first-line [] rest h = refl
split_first-line (c ∷ line) rest h =
    let e = split_first-line line rest h.1 in
    let z = h.0.0 in let r = h.0.1 in let n = h.0.2 in ground arith

tokens-unlines : (lines : List Bytes) → All IsToken lines → tokens (unlines lines) ≡ lines
unfolding tokens split_first unlines
tokens-unlines [] h = refl
tokens-unlines (line ∷ lines) h =
    let e = split_first-line line (unlines lines) h.0.0 in
    let f = tokens-unlines lines h.1 in ap with_first e ∙ ground arith

unlines-append : (a b : List Bytes) → unlines (a ++ b) ≡ unlines a ++ unlines b
unfolding unlines
unlines-append [] b = refl
unlines-append (line ∷ a) b =
    ap (λ t. line ++ b'\n' ∷ t) (unlines-append a b)
    ∙ sym (append_assoc line (b'\n' ∷ unlines a) (unlines b))

pub stored-unlines :
    (date : Bytes) (s : ClientSession) (body : List Bytes)
    → s.data_buffer ≡ unlines body
    → stored date s ≡ unlines (mail_lines s.sender date body)
unfolding stored unlines
stored-unlines date s body e = simp (e, unlines-append, append_assoc)

-- the session in data mode with a text
abbrev pub with_data : ClientSession → Bytes → ClientSession
with_data s text = record s { is_data_mode = true; data_buffer = text }

abbrev message_stored_response : Bytes
message_stored_response = codes "200 Message stored successfully\r\n"

-- what the final "." leaves
abbrev pub finish : Bytes → ClientSession → Mailboxes → Bytes → Handled
finish date s m text = record {
  session = record s { is_data_mode = false; data_buffer = text };
  mailboxes = save_email date (with_data s text) m;
  sent = message_stored_response ∷ [];
}

abbrev pub sent_after : List Bytes → Handled → Outcome Handled
sent_after sent g = done (record g { sent = sent ++ g.sent })

more_data :
    (date : Bytes) (s : ClientSession) (m : Mailboxes) (text line : Bytes)
    → same_text line (codes ".") ≡ false
    → length text + length line + 2 < 4096
    → handle_data_content date (with_data s text) m line
      ≡ record { session = with_data s (text ++ line ++ codes "\n"); mailboxes = m; sent = [] }
unfolding handle_data_content
more_data date s m text line h p = ground arith

pub data_lines :
    (date junk : Bytes) (s : ClientSession) (m : Mailboxes) (text : Bytes) (body : List Bytes)
    → All (λ line. same_text line (codes ".") ≡ false) body
    → length text + length (unlines body) + 1 < 4096
    → handle_lines date junk (with_data s text) m (body ++ codes "." ∷ [])
      ≡ done (finish date s m (text ++ unlines body))
unfolding handle_lines handle_line handle_data_content unlines same_text
data_lines date junk s m text [] h p = ap (λ t. done (finish date s m t)) (sym (append-nil text))
data_lines date junk s m text (line ∷ body) h p =
    let n = length-append line (b'\n' ∷ unlines body) in
    let k = length-append (text ++ line) (codes "\n") in
    let l = length-append text line in
    let rest = data_lines date junk s m (text ++ line ++ codes "\n") body h.1 (omega arith) in
    ap
      (λ (f : Handled).
        handle_lines date junk f.session f.mailboxes (body ++ codes "." ∷ []) >>= sent_after f.sent)
      (more_data date s m text line h.0 (omega arith))
    ∙ ap (λ (o : Outcome Handled). o >>= sent_after []) rest
    ∙ ap (λ t. done (finish date s m t)) (simp append_assoc)

-- the bytes with which a client sends a mail
abbrev pub mail_request : List Bytes → Bytes
mail_request body = unlines (codes "DATA" ∷ body ++ codes "." ∷ [])

request-IsToken : (body : List Bytes) → All IsToken body → All IsToken (body ++ codes "." ∷ [])
request-IsToken [] h = ground arith
request-IsToken (line ∷ body) h = (h.0, request-IsToken body h.1)

pub data_started :
    (date junk : Bytes) (s : ClientSession) (m : Mailboxes)
    → s.is_data_mode ≡ false
    → 0 < length s.sender
    → 0 < length s.recipient
    → handle_line date junk s m (codes "DATA")
      ≡ done (record {
        session = with_data s [];
        mailboxes = m;
        sent = codes "Enter your message (end with a single dot '.'):" ∷ [];
      })
unfolding handle_line process_command handle_data starts_with same_text
data_started date junk s m h p q = ground arith

same_text_refl : (a : Bytes) → same_text a a ≡ true
unfolding same_text
same_text_refl [] = refl
same_text_refl (c ∷ a) = ground (arith, same_text_refl a)

pub saved-own :
    (date : Bytes) (s : ClientSession) (m : Mailboxes)
    → m.can_append (mailbox_path s.recipient) ≡ true
    → (save_email date s m).files (mailbox_path s.recipient)
      ≡ some (content (m.files (mailbox_path s.recipient)) ++ stored date s)
unfolding save_email
saved-own date s m can = ground (arith, same_text_refl (mailbox_path s.recipient))

pub saved-other :
    (date : Bytes) (s : ClientSession) (m : Mailboxes) (other : Bytes)
    → same_text (mailbox_path s.recipient) other ≡ false
    → (save_email date s m).files other ≡ m.files other
unfolding save_email
saved-other date s m other o = ground arith

-- A client that is not in data mode and has given a sender and a recipient sends DATA, nonempty
-- lines of which none is a single dot, at most 4094 bytes with their newlines, and the dot: if
-- the mailbox can be appended to, exactly the mail is appended to the recipient's file, every other
-- file stays as it was, and the session leaves data mode.
pub message_stored :
    (date junk : Bytes) (s : ClientSession) (m : Mailboxes) (body : List Bytes) (other : Bytes)
    → s.is_data_mode ≡ false
    → 0 < length s.sender
    → 0 < length s.recipient
    → m.can_append (mailbox_path s.recipient) ≡ true
    → All IsToken body
    → All (λ line. same_text line (codes ".") ≡ false) body
    → length (unlines body) < 4095
    → same_text (mailbox_path s.recipient) other ≡ false
    → (h : Handled) × (handle_received date junk s m (mail_request body) ≡ done h)
      × (h.session ≡ record s { is_data_mode = false; data_buffer = unlines body })
      × (h.mailboxes.files (mailbox_path s.recipient)
          ≡ some (
              content (m.files (mailbox_path s.recipient))
              ++ unlines (mail_lines s.sender date body)))
      × (h.mailboxes.files other ≡ m.files other)
unfolding handle_received handle_lines
message_stored date junk s m body other d p q can tok dots fits o =
    let lines =
      tokens-unlines (codes "DATA" ∷ body ++ codes "." ∷ [])
        (ground arith, request-IsToken body tok) in
    let start = data_started date junk s m d p q in
    let rest = data_lines date junk s m [] body dots (omega arith) in
    let text = stored-unlines date (with_data s (unlines body)) body refl in
    (
      _,
      ap (handle_lines date junk s m) lines
          ∙ ap
              (λ (f : Outcome Handled). f >>= λ h.
                handle_lines date junk h.session h.mailboxes (body ++ codes "." ∷ [])
                >>= sent_after h.sent)
              start
          ∙ ap
              (λ (f : Outcome Handled).
                f >>= sent_after (codes "Enter your message (end with a single dot '.'):" ∷ []))
              rest,
      refl,
      saved-own date (with_data s (unlines body)) m can
          ∙ ap (λ t. some (content (m.files (mailbox_path s.recipient)) ++ t)) text,
      saved-other date (with_data s (unlines body)) m other o,
    )
