-- ===== src/Smtp/Session.antt =====
-- What every line of a client keeps true of its session.
use cn_assignments.Base.{
  ◌+◌, ◌<◌, ◌≡◌, refl, Bool, true, false, ◌||◌, ◌==◌, if◌then◌else◌, Bytes, List, [], ◌∷◌, ◌++◌,
  length, drop, take, codes, starts_with, same_text, length-append, length-take, Outcome, done,
  blocked, fault, ◌>>=◌, arith, ltb,
}
use cn_assignments.Smtp.{
  ClientSession, Mailboxes, Handled, handle_helo, handle_mail_from, handle_rcpt_to, handle_data,
  handle_data_content, validate_email, new_session,
}
use cn_assignments.Smtp.Reading.{handle_list, handle_get_mail}
use cn_assignments.Smtp.Waiting.{NeverWaits, handle_list-NeverWaits, handle_get_mail-NeverWaits}
use cn_assignments.Smtp.Service.{
  process_command, handle_line, handle_lines, handle_received, tokens, answers,
}

-- The texts fit their arrays, and data is taken only for a sender and a recipient.
pub record IsSession (s : ClientSession) : Type 0 where
  pub client_id_fits : length s.client_id < 100
  pub sender_fits : length s.sender < 100
  pub recipient_fits : length s.recipient < 100
  pub data_fits : length s.data_buffer < 4096
  pub addressed : s.is_data_mode ≡ true → (0 < length s.sender) × (0 < length s.recipient)

pub new_session-IsSession : IsSession new_session
new_session-IsSession = record {
  client_id_fits = omega arith;
  sender_fits = omega arith;
  recipient_fits = omega arith;
  data_fits = omega arith;
  addressed = λ h. absurd (ground arith);
}

take-fits : (args : Bytes) → length (take 99 args) < 100
take-fits args = omega (arith, length-take 99 args)

valid-nonempty : (args : Bytes) → validate_email args ≡ true → 0 < length (take 99 args)
unfolding validate_email
valid-nonempty [] h = absurd (ground arith)
valid-nonempty (c ∷ args) h = omega arith

-- LIST or GET_MAIL, which read a mailbox
abbrev pub reads : Bytes → Bool
reads line = starts_with (codes "LIST ") line || starts_with (codes "GET_MAIL ") line

abbrev pub any_reads : List Bytes → Bool
any_reads [] = false
any_reads (line ∷ lines) = reads line || any_reads lines

-- The work ends and leaves such a session, or an array overflows, which only happens if a mailbox is
-- read.
pub data Keeps (reading : Bool) : Outcome Handled → Type 0 where
  leaves : {h : Handled} → IsSession h.session → Keeps reading (done h)
  overflows : reading ≡ true → Keeps reading fault

if-IsSession :
    (b : Bool) (h k : Handled)
    → (b ≡ true → IsSession h.session)
    → (b ≡ false → IsSession k.session)
    → IsSession (if b then h else k).session
if-IsSession true h k p q = p refl
if-IsSession false h k p q = q refl

if-Keeps :
    (r b : Bool) (h k : Outcome Handled)
    → (b ≡ true → Keeps r h)
    → Keeps r k
    → Keeps r (if b then h else k)
if-Keeps r true h k p q = p refl
if-Keeps r false h k p q = q

answers-Keeps :
    (r : Bool) (s : ClientSession) (m : Mailboxes) (o : Outcome (List Bytes))
    → r ≡ true
    → NeverWaits o
    → IsSession s
    → Keeps r (answers s m o)
answers-Keeps r s m (done sent) t n v = leaves v
answers-Keeps r s m blocked t n v = absurd n
answers-Keeps r s m fault t n v = overflows t

helo-IsSession :
    (s : ClientSession) (m : Mailboxes) (args : Bytes)
    → IsSession s
    → IsSession (handle_helo s m args).session
unfolding handle_helo
helo-IsSession s m args v =
    if-IsSession (ltb 0 (length args)) _ _
      (λ t. record {
        client_id_fits = take-fits args;
        sender_fits = v.sender_fits;
        recipient_fits = v.recipient_fits;
        data_fits = v.data_fits;
        addressed = v.addressed;
      })
      (λ u. v)

mail_from-IsSession :
    (s : ClientSession) (m : Mailboxes) (args : Bytes)
    → IsSession s
    → IsSession (handle_mail_from s m args).session
unfolding handle_mail_from
mail_from-IsSession s m args v =
    if-IsSession (validate_email args) _ _
      (λ t. record {
        client_id_fits = v.client_id_fits;
        sender_fits = take-fits args;
        recipient_fits = v.recipient_fits;
        data_fits = v.data_fits;
        addressed = λ d. (valid-nonempty args t, (v.addressed d).1);
      })
      (λ u. v)

rcpt_to-IsSession :
    (s : ClientSession) (m : Mailboxes) (args : Bytes)
    → IsSession s
    → IsSession (handle_rcpt_to s m args).session
unfolding handle_rcpt_to
rcpt_to-IsSession s m args v =
    if-IsSession (validate_email args) _ _
      (λ t. record {
        client_id_fits = v.client_id_fits;
        sender_fits = v.sender_fits;
        recipient_fits = take-fits args;
        data_fits = v.data_fits;
        addressed = λ d. ((v.addressed d).0, valid-nonempty args t);
      })
      (λ u. v)

data-IsSession :
    (s : ClientSession) (m : Mailboxes) → IsSession s → IsSession (handle_data s m).session
unfolding handle_data
data-IsSession s m v =
    if-IsSession ((length s.sender == 0) || (length s.recipient == 0)) _ _ (λ t. v)
      (λ u. record {
        client_id_fits = v.client_id_fits;
        sender_fits = v.sender_fits;
        recipient_fits = v.recipient_fits;
        data_fits = omega arith;
        addressed = λ d. (ground arith, ground arith);
      })

left_data : {s : ClientSession} → IsSession s → IsSession (record s { is_data_mode = false })
left_data v = record {
  client_id_fits = v.client_id_fits;
  sender_fits = v.sender_fits;
  recipient_fits = v.recipient_fits;
  data_fits = v.data_fits;
  addressed = λ d. absurd (ground arith);
}

data_content-IsSession :
    (date : Bytes) (s : ClientSession) (m : Mailboxes) (line : Bytes)
    → IsSession s
    → IsSession (handle_data_content date s m line).session
unfolding handle_data_content
data_content-IsSession date s m line v =
    if-IsSession (same_text line (codes ".")) _ _ (λ t. left_data v)
      (λ u.
        if-IsSession (ltb (length s.data_buffer + length line + 2) 4096) _ _
          (λ t. record {
            client_id_fits = v.client_id_fits;
            sender_fits = v.sender_fits;
            recipient_fits = v.recipient_fits;
            data_fits = ground (
              arith,
              length-append (s.data_buffer ++ line) (codes "\n"),
              length-append s.data_buffer line,
            );
            addressed = v.addressed;
          })
          (λ f. left_data v))

command-Keeps :
    (junk : Bytes) (s : ClientSession) (m : Mailboxes) (command : Bytes)
    → IsSession s
    → Keeps (reads command) (process_command junk s m command)
unfolding process_command
command-Keeps junk s m command v =
    let r = reads command in
    if-Keeps r (starts_with (codes "HELO ") command) _ _
      (λ t. leaves (helo-IsSession s m (drop 5 command) v))
      (if-Keeps r (starts_with (codes "MAIL FROM: ") command) _ _
        (λ t. leaves (mail_from-IsSession s m (drop 11 command) v))
        (if-Keeps r (starts_with (codes "RCPT TO: ") command) _ _
          (λ t. leaves (rcpt_to-IsSession s m (drop 9 command) v))
          (if-Keeps r (same_text command (codes "DATA")) _ _ (λ t. leaves (data-IsSession s m v))
            (if-Keeps r (starts_with (codes "LIST ") command) _ _
              (λ t.
                answers-Keeps r s m (handle_list junk m (drop 5 command)) (ground arith)
                  (handle_list-NeverWaits junk m (drop 5 command)) v)
              (if-Keeps r (starts_with (codes "GET_MAIL ") command) _ _
                (λ t.
                  answers-Keeps r s m (handle_get_mail m (drop 9 command)) (ground arith)
                    (handle_get_mail-NeverWaits m (drop 9 command)) v)
                (if-Keeps r (same_text command (codes "QUIT")) _ _ (λ t. leaves v) (leaves v)))))))

line-Keeps :
    (date junk : Bytes) (s : ClientSession) (m : Mailboxes) (line : Bytes)
    → IsSession s
    → Keeps (reads line) (handle_line date junk s m line)
unfolding handle_line
line-Keeps date junk s m line v =
    if-Keeps (reads line) s.is_data_mode _ _ (λ t. leaves (data_content-IsSession date s m line v))
      (command-Keeps junk s m line v)

-- Two parts of the work, one behind the other.
then-Keeps :
    (r b : Bool) (o : Outcome Handled) (f : Handled → Outcome Handled)
    → (r ≡ true → b ≡ true)
    → Keeps r o
    → ((h : Handled) → IsSession h.session → Keeps b (f h))
    → Keeps b (o >>= f)
then-Keeps r b _ f w (leaves {h} v) k = k h v
then-Keeps r b _ f w (overflows e) k = overflows (w e)

lines-Keeps :
    (date junk : Bytes) (s : ClientSession) (m : Mailboxes) (lines : List Bytes)
    → IsSession s
    → Keeps (any_reads lines) (handle_lines date junk s m lines)
unfolding handle_lines
lines-Keeps date junk s m [] v = leaves v
lines-Keeps date junk s m (line ∷ lines) v =
    let any = any_reads (line ∷ lines) in
    then-Keeps (reads line) any (handle_line date junk s m line) _ (λ e. ground arith)
      (line-Keeps date junk s m line v)
      (λ h w.
        then-Keeps (any_reads lines) any (handle_lines date junk h.session h.mailboxes lines) _
          (λ e. ground arith) (lines-Keeps date junk h.session h.mailboxes lines w)
          (λ g u. leaves u))

-- Whatever bytes a client sends, the work on them ends. Then the texts of the session keep within
-- their arrays, and the session is in data mode only with a sender and a recipient; or an array has
-- overflowed, and one of the lines begins with LIST or GET_MAIL.
pub handle_received-IsSession :
    (date junk : Bytes) (s : ClientSession) (m : Mailboxes) (buffer : Bytes)
    → IsSession s
    → Keeps (any_reads (tokens buffer)) (handle_received date junk s m buffer)
unfolding handle_received
handle_received-IsSession date junk s m buffer v = lines-Keeps date junk s m (tokens buffer) v
