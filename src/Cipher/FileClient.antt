-- ===== src/Cipher/FileClient.antt =====
-- Lab 3/retrieveencfileclient.c with the server at the other end.
use cn_assignments.Base.{
  ℕ, ◌≡◌, sym, ap, ◌∙◌, not, Option, none, some, ltb, ◌==◌, if◌then◌else◌, Bytes, List, [], ◌∷◌,
  ◌++◌, length, map, All, arith, Outcome, done, fault, ◌>>=◌, freads, joined, joined-freads,
  append-nil,
}
use mathlib.Core.List.{append_assoc, append_cancel_left, append_cancel_right}
use cn_assignments.Cipher.{
  eof_marker, before_marker, substitute, encrypt_file, recieve_encrypt_send,
}
use cn_assignments.Cipher.Substitution.{IsInverse}
use cn_assignments.Cipher.WholeFile.{
  IsText, receive_file-joined, encrypt_from-map, map-nonzero, map-inverse,
}

-- BUFFER_SIZE of both programs
abbrev pub buffer_size : ℕ
buffer_size = 100

-- the file in pieces, and the marker
unfoldable pub send_file : Bytes → List Bytes
send_file file = freads buffer_size (length file) file ++ eof_marker ∷ []

-- what is written of the pieces that come until the connection ends
abbrev pub receive_file : List Bytes → Bytes
receive_file pieces = joined pieces

-- A turn of the loop of main: what it sends, the key first, if the file can be opened and the key has
-- 26 letters. A longer key does not fit its array.
unfoldable pub request : Option Bytes → Bytes → Outcome (Option (List Bytes))
request none key = done none
request (some file) key =
    if ltb 26 (length key)
    then fault
    else if not (length key == 26)
    then done none
    else done (some (key ∷ send_file file))

-- the loop of the server that sends the encrypted file back
unfoldable pub send_back : Bytes → List Bytes
send_back file = freads buffer_size (length file) file

-- The server on what its calls of `recv` return on a connection, the first of which is for the key.
unfoldable pub serve_file : List Bytes → List Bytes
serve_file [] = []
serve_file (key ∷ pieces) = send_back (recieve_encrypt_send key pieces)

-- A turn of the client with the server: the encrypted file that the client writes. The connection is a
-- stream: `arrive` and `come_back` say what the calls of `recv` of the server and of the client return
-- of what the other side has sent.
unfoldable pub encrypt_remotely :
    (List Bytes → List Bytes)
    → (List Bytes → List Bytes)
    → Option Bytes
    → Bytes
    → Outcome (Option Bytes)
encrypt_remotely arrive come_back file key = request file key >>= λ r. done (elim r [
  | none ↦ none
  | some messages ↦ some (receive_file (come_back (serve_file (arrive messages))))
])

-- A stream comes whole and in order, in whatever pieces.
abbrev pub IsStream : (List Bytes → List Bytes) → Type 0
IsStream arrive = (sent : List Bytes) → joined (arrive sent) ≡ joined sent

-- How the messages for a file arrive: the key by itself, and the marker with whatever stands before it
-- in one `recv`; no piece shows the marker earlier.
pub record Arrives (key : Bytes) (received : List Bytes) : Type 0 where
  pub front : List Bytes
  pub last : Bytes
  pub comes_as : received ≡ key ∷ front ++ (last ++ eof_marker) ∷ []
  pub unmarked : All (λ piece. before_marker piece ≡ none) front
  pub marked : before_marker (last ++ eof_marker) ≡ some last

request-messages :
    (file key : Bytes)
    → length key ≡ 26
    → request (some file) key ≡ done (some (key ∷ send_file file))
unfolding request
request-messages file key h = ground arith

joined-last :
    (pieces : List Bytes) (last : Bytes) → joined (pieces ++ last ∷ []) ≡ joined pieces ++ last
joined-last [] last = append-nil last
joined-last (piece ∷ pieces) last =
    ap (λ t. piece ++ t) (joined-last pieces last) ∙ sym (append_assoc piece (joined pieces) last)

-- what the pieces before the marker are
front-joined :
    (key file : Bytes) (arrive : List Bytes → List Bytes) (front : List Bytes) (last : Bytes)
    → IsStream arrive
    → arrive (key ∷ send_file file) ≡ key ∷ front ++ (last ++ eof_marker) ∷ []
    → joined front ++ last ≡ file
unfolding send_file
front-joined key file arrive front last stream e =
    let sent = freads buffer_size (length file) file in
    let whole : joined sent ≡ file =
      joined-freads buffer_size (length file) file (omega arith) (omega arith) in
    let arrived : joined (arrive (key ∷ send_file file))
        ≡ key ++ ((joined front ++ last) ++ eof_marker) =
      ap (λ (l : List Bytes). joined l) e
      ∙ ap (λ t. key ++ t)
          (joined-last front (last ++ eof_marker)
            ∙ sym (append_assoc (joined front) last eof_marker)) in
    let left : key ++ ((joined front ++ last) ++ eof_marker) ≡ key ++ (file ++ eof_marker) =
      sym arrived
      ∙ stream (key ∷ send_file file)
      ∙ ap (λ t. key ++ t) (joined-last sent eof_marker ∙ ap (λ t. t ++ eof_marker) whole) in
    append_cancel_right (joined front ++ last) file eof_marker
      (append_cancel_left key ((joined front ++ last) ++ eof_marker) (file ++ eof_marker) left)

encrypt_remotely-map :
    (file key inverse : Bytes) (arrive come_back : List Bytes → List Bytes)
    → length key ≡ 26
    → IsInverse key inverse
    → IsText file
    → IsStream arrive
    → IsStream come_back
    → Arrives key (arrive (key ∷ send_file file))
    → encrypt_remotely arrive come_back (some file) key ≡ done (some (map (substitute key) file))
unfolding encrypt_remotely serve_file send_back recieve_encrypt_send
encrypt_remotely-map file key inverse arrive come_back h k t stream back a =
    let received =
      receive_file-joined a.front a.last (a.last ++ eof_marker) a.unmarked a.marked
      ∙ front-joined key file arrive a.front a.last stream a.comes_as in
    ap
      (λ (o : Outcome (Option (List Bytes))). o >>= λ r. done (elim r [
        | none ↦ none
        | some messages ↦ some (receive_file (come_back (serve_file (arrive messages))))
      ]))
      (request-messages file key h)
    ∙ ap (λ (b : Bytes). done (some b))
        (back (serve_file (arrive (key ∷ send_file file)))
          ∙ ap (λ (l : List Bytes). joined (serve_file l)) a.comes_as
          ∙ joined-freads buffer_size _ _ (omega arith) (omega arith)
          ∙ ap (encrypt_file key) received
          ∙ encrypt_from-map (length file) key inverse file k t (omega arith))

-- A file without NUL comes back with each letter replaced, if the key has 26 letters and an inverse
-- that is such a key in turn, and the result under the inverse key comes back as the file: whatever
-- pieces the connection delivers, provided that each time the key arrives by itself and the
-- marker in one `recv` with what stands before it, where no earlier piece shows a marker.
pub remote_inverse :
    (file key inverse : Bytes) (arrive come_back : List Bytes → List Bytes)
    → length key ≡ 26
    → length inverse ≡ 26
    → IsInverse key inverse
    → IsInverse inverse key
    → IsText file
    → IsStream arrive
    → IsStream come_back
    → Arrives key (arrive (key ∷ send_file file))
    → Arrives inverse (arrive (inverse ∷ send_file (map (substitute key) file)))
    → (encrypt_remotely arrive come_back (some file) key ≡ done (some (map (substitute key) file)))
      × (encrypt_remotely arrive come_back (some (map (substitute key) file)) inverse
          ≡ done (some file))
remote_inverse file key inverse arrive come_back h i k l t stream back a b = (
  encrypt_remotely-map file key inverse arrive come_back h k t stream back a,
  encrypt_remotely-map (map (substitute key) file) inverse key arrive come_back i l
        (map-nonzero key inverse file k t) stream back b
      ∙ ap (λ (b : Bytes). done (some b)) (map-inverse key inverse file k),
)
