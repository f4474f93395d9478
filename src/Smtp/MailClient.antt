-- ===== src/Smtp/MailClient.antt =====
-- Lab 6/mysmtp_client.c: what the client makes of the lines that its user types.
use cn_assignments.Base.{
  ℕ, zero, suc, ◌+◌, Bool, true, false, not, Option, none, some, ltb, ◌==◌, if◌then◌else◌, Bytes,
  List, [], ◌∷◌, ◌++◌, length, Outcome, done, fault, ◌>>=◌, codes, starts_with, same_text,
}

-- BUFFER_SIZE, and MAX_EMAIL_SIZE of the client
abbrev pub buffer_size : ℕ
buffer_size = 4096

abbrev pub crlf : Bytes → Bytes
crlf line = line ++ codes "\r\n"

-- `strcat(line, "\r\n")` in an array of that size
unfoldable pub terminated : Bytes → Outcome Bytes
terminated line = if ltb (length line + 2) buffer_size then done (crlf line) else fault

-- `strcat(email_body, line)`
unfoldable pub add_text : Bytes → Bytes → Outcome Bytes
add_text email_body line =
    if ltb (length email_body + length line) buffer_size then done (email_body ++ line) else fault

-- The loop that reads a mail: the text that it sends, `none` if the input ends before the dot, and
-- the lines that are left.
unfoldable pub read_body : List Bytes → Bytes → Outcome (Option Bytes × List Bytes)
read_body [] email_body = done (none, [])
read_body (line ∷ lines) email_body = elim (same_text line (codes ".")) [
  | true ↦ add_text email_body (codes ".\r\n") >>= λ text. done (some text, lines)
  | false ↦ terminated line >>= λ t. add_text email_body t >>= λ text. read_body lines text
]

abbrev pub sent_body : Option Bytes → List Bytes
sent_body none = []
sent_body (some text) = text ∷ []

-- The loop of main over the lines that `fgets` yields, without their newlines: the messages that it
-- sends. `answers` says for each command but DATA whether the server has answered or gone; while the
-- list is used up the client waits. Each round takes a line, so as many rounds as lines are enough.
unfoldable pub talk : ℕ → List Bytes → List Bool → Outcome (List Bytes)
talk zero lines answers = done []
talk (suc n) [] answers = done []
talk (suc n) (command ∷ lines) answers = elim (length command == 0) [
  | true ↦ talk n lines answers
  | false ↦ terminated command >>= λ message. elim (starts_with (codes "DATA") command) [
    | true ↦ read_body lines [] >>= λ body.
        talk n body.1 answers >>= λ rest. done (message ∷ sent_body body.0 ++ rest)
    | false ↦ elim answers [
      | [] ↦ done (message ∷ [])
      | is_answered ∷ answers ↦
          if not is_answered
          then done (message ∷ [])
          else if starts_with (codes "QUIT") command
          then done (message ∷ [])
          else (talk n lines answers >>= λ rest. done (message ∷ rest))
    ]
  ]
]

abbrev pub client_messages : List Bytes → List Bool → Outcome (List Bytes)
client_messages lines answers = talk (length lines) lines answers
