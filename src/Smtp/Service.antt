-- ===== src/Smtp/Service.antt =====
-- process_command and handle_client: what the server does with the bytes of a client.
use cn_assignments.Base.{
  ◌||◌, ◌==◌, if◌then◌else◌, Bytes, List, [], ◌∷◌, ◌++◌, length, drop, codes, starts_with,
  same_text, Outcome, done, ◌>>=◌,
}
use cn_assignments.Smtp.{
  invalid_syntax, ClientSession, Mailboxes, Handled, reply, handle_helo, handle_mail_from,
  handle_rcpt_to, handle_data, handle_data_content,
}
use cn_assignments.Smtp.Reading.{handle_list, handle_get_mail}

abbrev pub answers : ClientSession → Mailboxes → Outcome (List Bytes) → Outcome Handled
answers s m o = o >>= λ sent. done (record { session = s; mailboxes = m; sent = sent })

-- QUIT is answered, and the connection stays open.
unfoldable pub process_command : Bytes → ClientSession → Mailboxes → Bytes → Outcome Handled
process_command junk s m command =
    if starts_with (codes "HELO ") command
    then done (handle_helo s m (drop 5 command))
    else if starts_with (codes "MAIL FROM: ") command
    then done (handle_mail_from s m (drop 11 command))
    else if starts_with (codes "RCPT TO: ") command
    then done (handle_rcpt_to s m (drop 9 command))
    else if same_text command (codes "DATA")
    then done (handle_data s m)
    else if starts_with (codes "LIST ") command
    then answers s m (handle_list junk m (drop 5 command))
    else if starts_with (codes "GET_MAIL ") command
    then answers s m (handle_get_mail m (drop 9 command))
    else if same_text command (codes "QUIT")
    then done (reply s m (codes "200 Goodbye\r\n"))
    else done (reply s m invalid_syntax)

-- a text up to the first end of a line or NUL, and the tokens after it
abbrev pub with_first : Bytes × List Bytes → List Bytes
with_first r = if length r.0 == 0 then r.1 else r.0 ∷ r.1

unfoldable pub split_first : Bytes → Bytes × List Bytes
split_first [] = ([], [])
split_first (c ∷ text) =
    let rest = split_first text in
    if c == 0
    then ([], [])
    else if (c == b'\r') || (c == b'\n')
    then ([], with_first rest)
    else (c ∷ rest.0, rest.1)

-- `strtok` with "\r\n", over and over
unfoldable pub tokens : Bytes → List Bytes
tokens text = with_first (split_first text)

-- one line of a client
unfoldable pub handle_line : Bytes → Bytes → ClientSession → Mailboxes → Bytes → Outcome Handled
handle_line date junk s m line =
    if s.is_data_mode
    then done (handle_data_content date s m line)
    else process_command junk s m line

unfoldable pub handle_lines :
    Bytes → Bytes → ClientSession → Mailboxes → List Bytes → Outcome Handled
handle_lines date junk s m [] = done (record { session = s; mailboxes = m; sent = [] })
handle_lines date junk s m (line ∷ lines) = handle_line date junk s m line >>= λ h.
    handle_lines date junk h.session h.mailboxes lines >>= λ g.
    done (record g { sent = h.sent ++ g.sent })

-- A turn of the loop of `handle_client`, on the bytes that `recv` has delivered, 1023 at most.
unfoldable pub handle_received : Bytes → Bytes → ClientSession → Mailboxes → Bytes → Outcome Handled
handle_received date junk s m buffer = handle_lines date junk s m (tokens buffer)
