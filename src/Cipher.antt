-- ===== src/Cipher.antt =====
-- Lab 3/doencfileserver.c: a file comes in pieces, its letters are substituted, and it goes back.
pub mod Substitution
pub mod WholeFile
pub mod FileClient
mod CipherExamples
use cn_assignments.Base.{
  ℕ, zero, suc, ◌+◌, ◌-◌, ◌%◌, Bool, true, false, ◌&&◌, Option, none, some, leb, ◌==◌,
  if◌then◌else◌, Bytes, List, [], ◌∷◌, ◌++◌, length, get_or, codes, starts_with, fgets,
}

abbrev pub eof_marker : Bytes
eof_marker = codes "EOF_MARKER"

-- What stands before the marker, if `strstr` finds it in the text up to a NUL.
unfoldable pub before_marker : Bytes → Option Bytes
before_marker [] = none
before_marker (c ∷ text) =
    let rest = before_marker text in
    if c == 0
    then none
    else if starts_with eof_marker (c ∷ text)
    then some []
    else elim rest [ none ↦ none | some before ↦ some (c ∷ before) ]

-- The file that is written from the pieces `recv` delivers, each looked at by itself.
unfoldable pub receive_file : List Bytes → Bytes
receive_file [] = []
receive_file (buffer ∷ pieces) = elim (before_marker buffer) [
  | some before ↦ before
  | none ↦ buffer ++ receive_file pieces
]

-- one letter under the key
unfoldable pub substitute : Bytes → ℕ → ℕ
substitute key c =
    if leb 65 c && leb c 90
    then get_or key (c - 65) 0
    else if leb 97 c && leb c 122
    then (get_or key (c - 97) 0 + 97 - 65) % 256
    else c

-- the loop over a buffer, up to its NUL
unfoldable pub encrypt_buffer : Bytes → Bytes → Bytes
encrypt_buffer key [] = []
encrypt_buffer key (c ∷ buffer) =
    let rest = encrypt_buffer key buffer in if c == 0 then [] else substitute key c ∷ rest

-- `fputs`
unfoldable pub until_nul : Bytes → Bytes
until_nul [] = []
until_nul (c ∷ text) = let rest = until_nul text in if c == 0 then [] else c ∷ rest

-- The loop that reads with `fgets` into 100 bytes; a file has at most as many pieces as bytes.
unfoldable pub encrypt_from : ℕ → Bytes → Bytes → Bytes
encrypt_from zero key file = []
encrypt_from (suc n) key [] = []
encrypt_from (suc n) key (c ∷ file) =
    let piece = fgets 99 (c ∷ file) in
    until_nul (encrypt_buffer key piece.0) ++ encrypt_from n key piece.1

abbrev pub encrypt_file : Bytes → Bytes → Bytes
encrypt_file key file = encrypt_from (length file) key file

-- the file that goes back to the client
unfoldable pub recieve_encrypt_send : Bytes → List Bytes → Bytes
recieve_encrypt_send key pieces = encrypt_file key (receive_file pieces)
