-- ===== src/Smtp/SmtpExamples.antt =====
-- Tests of the mail server, and its theorems at concrete mails.
use cn_assignments.Base.{
  ◌>>=◌, is_space, ◌+◌, ◌≡◌, refl, true, false, done, arith, [], ◌∷◌, ◌++◌, codes, Bytes, some,
  replicate, fault, skip_spaces, none, unlines, same_text, starts_with,
}
use cn_assignments.Smtp.{
  ClientSession, Mailboxes, Handled, new_session, mailbox_path, ok_response, validate_email,
  content, handle_helo,
}
use cn_assignments.Smtp.Reading.{fetch_mail, handle_list, handle_get_mail, token}
use cn_assignments.Smtp.Service.{
  handle_received, tokens, split_first, handle_lines, handle_line, process_command,
}
use cn_assignments.Smtp.Session.{Keeps, any_reads, new_session-IsSession, handle_received-IsSession}
use cn_assignments.Smtp.Storage.{mail_lines}
use cn_assignments.Smtp.MailClient.{client_messages, talk, terminated}
use cn_assignments.Smtp.Delivery.{typed, deliver_all, typed_stored}
use cn_assignments.Smtp.Retrieval.{fetch_mail_lem, count_headers, sent_lines}
use cn_assignments.Smtp.Listing.{Mail, IsMail, file_lines, entries, handle_list_lem}

blank_lines_dropped : tokens (codes "a\r\n\r\nb\n") ≡ codes "a" ∷ codes "b" ∷ []
unfolding tokens split_first
blank_lines_dropped = refl

abbrev ann : Bytes
ann = codes "ann@x"

abbrev bob : Bytes
bob = codes "bob@y"

abbrev today : Bytes
today = codes "01-02-2025"

-- a mail whose text quotes the first line of another
abbrev quoting : Mail
quoting = record { sender = ann; date = today; body = codes "From: bob@y" ∷ codes "hi" ∷ [] }

abbrev plain : Mail
plain = record { sender = bob; date = today; body = codes "hello" ∷ [] }

abbrev boxes : Mailboxes
boxes = record {
  files = λ p. some (unlines (file_lines (quoting ∷ plain ∷ [])));
  can_append = λ p. true;
}

abbrev empty_boxes : Mailboxes
empty_boxes = record { files = λ p. none; can_append = λ p. true }

quoting-IsMail : IsMail quoting
unfolding is_space same_text
quoting-IsMail = record {
  sender_fits = omega arith;
  date_fits = omega arith;
  date_nonempty = omega arith;
  one_word = ground arith;
  no_separator = ground arith;
}

plain-IsMail : IsMail plain
unfolding is_space same_text
plain-IsMail = record {
  sender_fits = omega arith;
  date_fits = omega arith;
  date_nonempty = omega arith;
  one_word = ground arith;
  no_separator = ground arith;
}

handle_list_lem_example :
    handle_list [] boxes ann ≡ done (ok_response ∷ entries 1 (quoting ∷ plain ∷ []))
unfolding validate_email
handle_list_lem_example =
    handle_list_lem [] boxes ann (quoting ∷ plain ∷ []) refl refl (ground arith)
      (quoting-IsMail, (plain-IsMail, tt))

-- mail 2 of GET_MAIL is the quoted line of the first mail
fetch_mail_lem_example :
    fetch_mail boxes ann (count_headers (codes "From: ann@x" ∷ codes "Date: 01-02-2025" ∷ []) + 1)
    ≡ done
        ((ok_response ++ codes "From: bob@y" ++ codes "\r\n" ++ sent_lines (codes "hi" ∷ [])) ∷ [])
unfolding starts_with same_text sent_lines
fetch_mail_lem_example =
    fetch_mail_lem boxes ann (codes "From: bob@y")
      (codes "From: ann@x" ∷ codes "Date: 01-02-2025" ∷ []) (codes "hi" ∷ [])
      (mail_lines bob today (codes "hello" ∷ [])) refl (ground arith) refl (ground arith)
      (omega arith)

abbrev ready : ClientSession
ready = record new_session { sender = ann; recipient = bob }

-- after HELO, an address without end for GET_MAIL
abbrev long_address : Bytes
long_address = codes "HELO me\r\nGET_MAIL " ++ replicate 100 b'a' ++ codes "@x 1\r\n"

long_address-overflows : handle_received today [] new_session empty_boxes long_address ≡ fault
unfolding handle_received handle_lines handle_line process_command starts_with same_text tokens
    split_first handle_helo handle_get_mail token skip_spaces is_space
long_address-overflows = refl

abbrev greeting : Bytes
greeting = codes "HELO me\r\nMAIL FROM: ann@x\r\nDATA\r\n"

handle_received-IsSession_example :
    Keeps (any_reads (tokens greeting)) (handle_received today [] new_session empty_boxes greeting)
handle_received-IsSession_example =
    handle_received-IsSession today [] new_session empty_boxes greeting new_session-IsSession

-- an empty line sends nothing, and the client stops at QUIT
quits :
    client_messages (codes "HELO me" ∷ [] ∷ codes "QUIT" ∷ codes "LIST x" ∷ []) (true ∷ true ∷ [])
    ≡ done (codes "HELO me\r\n" ∷ codes "QUIT\r\n" ∷ [])
unfolding talk terminated starts_with
quits = refl

typed_stored_example :
    (h : Handled) × ((client_messages (typed (codes "hello" ∷ [])) []
        >>= deliver_all today [] ready empty_boxes)
      ≡ done h)
    × (h.session.is_data_mode ≡ false)
    × (h.mailboxes.files (mailbox_path bob)
        ≡ some (content none ++ unlines (mail_lines ann today (codes "hello" ∷ []))))
    × (h.mailboxes.files [] ≡ none)
unfolding same_text mailbox_path
typed_stored_example =
    typed_stored today [] ready empty_boxes (codes "hello" ∷ []) [] [] refl (omega arith)
      (omega arith) refl (ground arith) (refl, tt) (omega arith) refl
