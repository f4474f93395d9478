-- ===== src/Smtp.antt =====
-- Lab 6/mysmtp_server.c: the session of a client and the handlers of its commands.
pub mod Reading
pub mod Service
pub mod Waiting
pub mod Session
pub mod Storage
pub mod MailClient
pub mod Delivery
pub mod Listing
pub mod Retrieval
mod SmtpExamples
use cn_assignments.Base.{
  ℕ, zero, suc, ◌+◌, ◌-◌, Bool, true, false, not, ◌&&◌, ◌||◌, Option, none, some, ltb, leb, ◌==◌,
  if◌then◌else◌, Bytes, List, [], ◌∷◌, ◌++◌, length, take, drop, codes, starts_with, same_text,
}

abbrev pub max_email_size : ℕ
max_email_size = 4096

abbrev pub ok_response : Bytes
ok_response = codes "200 OK\r\n"

abbrev pub invalid_syntax : Bytes
invalid_syntax = codes "400 ERR Invalid command syntax\r\n"

abbrev pub not_found : Bytes
not_found = codes "401 NOT FOUND Requested email does not exist\r\n"

abbrev pub forbidden : Bytes
forbidden = codes "403 FORBIDDEN Action not permitted\r\n"

abbrev pub server_error : Bytes
server_error = codes "500 SERVER ERROR\r\n"

-- Each text is what stands before the NUL of its array.
pub record ClientSession : Type 0 where
  pub client_id : Bytes
  pub sender : Bytes
  pub recipient : Bytes
  pub is_data_mode : Bool
  pub data_buffer : Bytes

-- the session after `malloc` and `memset`
abbrev pub new_session : ClientSession
new_session = record {
  client_id = [];
  sender = [];
  recipient = [];
  is_data_mode = false;
  data_buffer = [];
}

-- the files of the mailbox directory by their paths, and whether `fopen` may append to one
pub record Mailboxes : Type 0 where
  pub files : Bytes → Option Bytes
  pub can_append : Bytes → Bool

-- what a handler leaves: the session, the files, and what it has sent
pub record Handled : Type 0 where
  pub session : ClientSession
  pub mailboxes : Mailboxes
  pub sent : List Bytes

abbrev pub reply : ClientSession → Mailboxes → Bytes → Handled
reply s m response = record { session = s; mailboxes = m; sent = response ∷ [] }

-- `strchr(email, '@') != NULL`
unfoldable pub validate_email : Bytes → Bool
validate_email [] = false
validate_email (c ∷ email) = (c == b'@') || validate_email email

-- `snprintf` into 256 bytes
unfoldable pub mailbox_path : Bytes → Bytes
mailbox_path name = take 255 (codes "mailbox/" ++ name ++ codes ".txt")

unfoldable pub handle_helo : ClientSession → Mailboxes → Bytes → Handled
handle_helo s m args =
    if ltb 0 (length args)
    then reply (record s { client_id = take 99 args }) m ok_response
    else reply s m invalid_syntax

unfoldable pub handle_mail_from : ClientSession → Mailboxes → Bytes → Handled
handle_mail_from s m args =
    if validate_email args
    then reply (record s { sender = take 99 args }) m ok_response
    else reply s m invalid_syntax

unfoldable pub handle_rcpt_to : ClientSession → Mailboxes → Bytes → Handled
handle_rcpt_to s m args =
    if validate_email args
    then reply (record s { recipient = take 99 args }) m ok_response
    else reply s m invalid_syntax

-- The send is of 47 bytes, which leaves out the end of the line.
unfoldable pub handle_data : ClientSession → Mailboxes → Handled
handle_data s m =
    if (length s.sender == 0) || (length s.recipient == 0)
    then reply s m forbidden
    else reply (record s { is_data_mode = true; data_buffer = [] }) m
        (codes "Enter your message (end with a single dot '.'):")

-- the text that `save_email` appends; `date` is today's
unfoldable pub stored : Bytes → ClientSession → Bytes
stored date s =
    codes "From: "
    ++ s.sender
    ++ codes "\n"
    ++ codes "Date: "
    ++ date
    ++ codes "\n"
    ++ s.data_buffer
    ++ codes "---\n"

abbrev pub content : Option Bytes → Bytes
content none = []
content (some file) = file

unfoldable pub save_email : Bytes → ClientSession → Mailboxes → Mailboxes
save_email date s m =
    let path = mailbox_path s.recipient in
    if not (m.can_append path) then m else record m {
      files =
          λ p. if same_text path p then some (content (m.files p) ++ stored date s) else m.files p;
    }

unfoldable pub handle_data_content : Bytes → ClientSession → Mailboxes → Bytes → Handled
handle_data_content date s m line =
    if same_text line (codes ".")
    then reply (record s { is_data_mode = false }) (save_email date s m)
        (codes "200 Message stored successfully\r\n")
    else if ltb (length s.data_buffer + length line + 2) max_email_size
    then record {
      session = record s { data_buffer = s.data_buffer ++ line ++ codes "\n" };
      mailboxes = m;
      sent = [];
    }
    else reply (record s { is_data_mode = false }) m server_error
