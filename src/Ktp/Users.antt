-- ===== src/Ktp/Users.antt =====
-- Lab 4 Final/user1.c and user2.c: a file in messages, and the messages written to a file.
use cn_assignments.Base.{
  ℕ, suc, ◌-◌, ◌≤◌, ◌≡◌, ◌≢◌, refl, sym, ap, ◌∙◌, Bool, true, false, Option, none, some, ℤ, pos,
  negsuc, is_negative, if◌then◌else◌, Bytes, List, [], ◌||◌, ◌==◌, ◌∷◌, ◌++◌, append_assoc,
  append-nil, length, take, drop, map, All, arith, codes, starts_with, strlen, strlen-append,
  take-append, freads, joined, get_or, subst, joined-freads, IsNoEnd, IsNoEnd-starts_with,
}
use cn_assignments.Ktp.Types.{message_size}

-- the messages of user1: the file in pieces, and the marker with its NUL
abbrev pub file_messages : Bytes → List Bytes
file_messages file = freads (message_size - 3) (length file) file ++ codes "EOF\0" ∷ []

-- The loops of user1, by what each call of `k_sendto` returns: a message is tried again until it is
-- taken. The result is the messages that have been taken.
unfoldable pub taken : List Bytes → List ℤ → List Bytes
taken [] results = []
taken (message ∷ messages) [] = []
taken (message ∷ messages) (value ∷ results) = elim (is_negative value) [
  | true ↦ taken (message ∷ messages) results
  | false ↦ message ∷ taken messages results
]

-- user2: the file, the array that `k_recvfrom` writes to, and whether the loop has ended
pub record Copy : Type 0 where
  pub file : Bytes
  pub buffer : Bytes
  pub is_ended : Bool

-- One turn of the loop of user2, on the text that `k_recvfrom` hands over; with none, or an empty
-- one, it sleeps. The test for the end looks at the array, which behind the text holds older bytes.
unfoldable pub copy_turn : Copy → Option Bytes → Copy
copy_turn c none = c
copy_turn c (some text) =
    let buffer = text ++ drop (length text) c.buffer in
    if c.is_ended || (length text == 0)
    then c
    else if starts_with (codes "EOF") buffer
    then record { file = c.file; buffer = buffer; is_ended = true }
    else record { file = c.file ++ take (length text) buffer; buffer = buffer; is_ended = false }

unfoldable pub copy_all : Copy → List (Option Bytes) → Copy
copy_all c [] = c
copy_all c (o ∷ texts) = copy_all (copy_turn c o) texts

-- the text that `k_recvfrom` makes of a message
abbrev pub text_of : Bytes → Bytes
text_of message = elim (strlen (message ++ 0 ∷ [])) [
  | none ↦ []
  | some n ↦ take n (message ++ 0 ∷ [])
]

-- the texts among what a row of calls hands over
abbrev pub present : List (Option Bytes) → List Bytes
present [] = []
present (none ∷ texts) = present texts
present (some text ∷ texts) = text ∷ present texts

-- how many calls have succeeded
abbrev pub successes : List ℤ → ℕ
successes [] = 0
successes (pos n ∷ results) = suc (successes results)
successes (negsuc n ∷ results) = successes results

taken-all :
    (messages : List Bytes) (results : List ℤ)
    → length messages ≤ successes results
    → taken messages results ≡ messages
unfolding taken
taken-all [] results h = refl
taken-all (message ∷ messages) [] h = absurd (omega arith)
taken-all (message ∷ messages) (pos n ∷ results) h =
    ap (λ ms. message ∷ ms) (taken-all messages results (omega arith))
taken-all (message ∷ messages) (negsuc n ∷ results) h = taken-all (message ∷ messages) results h

-- A piece that goes through: it has no NUL, and does not begin like the marker.
abbrev pub IsPiece : Bytes → Type 0
IsPiece piece = All (λ c. c ≢ 0) piece × IsNoEnd piece

text_of-piece : (piece : Bytes) → IsPiece piece → text_of piece ≡ piece
text_of-piece piece h =
    ap (λ (o : Option ℕ). elim o [ none ↦ [] | some n ↦ take n (piece ++ 0 ∷ []) ])
      (strlen-append piece [] h.0)
    ∙ take-append piece (0 ∷ [])

no_empty : ¬ IsNoEnd []
unfolding starts_with
no_empty h = ground arith

texts-pieces :
    (pieces : List Bytes)
    → All IsPiece pieces
    → map text_of (pieces ++ codes "EOF\0" ∷ []) ≡ pieces ++ codes "EOF" ∷ []
unfolding strlen
texts-pieces [] h = refl
texts-pieces (piece ∷ pieces) h =
    ap (λ t. t ∷ map text_of (pieces ++ codes "EOF\0" ∷ [])) (text_of-piece piece h.0)
    ∙ ap (λ ts. piece ∷ ts) (texts-pieces pieces h.1)

-- the copy after a piece
abbrev with_piece : Copy → Bytes → Copy
with_piece c piece = record {
  file = c.file ++ piece;
  buffer = piece ++ drop (length piece) c.buffer;
  is_ended = false;
}

two_tests {ℓ} :
    {A : Type ℓ} (a b : Bool) (x y z : A)
    → a ≡ false
    → b ≡ false
    → (if a then x else if b then y else z) ≡ z
two_tests a b x y z p q = ground arith

goes_on :
    (c : Copy) (d : ℕ) (piece : Bytes)
    → c.is_ended ≡ false
    → (c.is_ended || (length (d ∷ piece) == 0)) ≡ false
goes_on c d piece e = ground arith

copy_turn-piece :
    (c : Copy) (piece : Bytes)
    → c.is_ended ≡ false
    → IsNoEnd piece
    → copy_turn c (some piece) ≡ with_piece c piece
unfolding copy_turn
copy_turn-piece c [] e h = absurd (no_empty h)
copy_turn-piece c (d ∷ piece) e h =
    let rest = drop (length (d ∷ piece)) c.buffer in
    two_tests (c.is_ended || (length (d ∷ piece) == 0))
      (starts_with (codes "EOF") (d ∷ piece ++ rest)) _ _ _ (goes_on c d piece e)
      (IsNoEnd-starts_with (d ∷ piece) rest h)
    ∙ ap (λ t. record { file = c.file ++ t; buffer = d ∷ piece ++ rest; is_ended = false })
        (take-append (d ∷ piece) rest)

copy_turn-marker :
    (c : Copy)
    → c.is_ended ≡ false
    → (copy_turn c (some (codes "EOF"))).file ≡ c.file
      × ((copy_turn c (some (codes "EOF"))).is_ended ≡ true)
unfolding copy_turn starts_with
copy_turn-marker c e = (ground arith, ground arith)

copy_turn-ended : (c : Copy) (o : Option Bytes) → c.is_ended ≡ true → copy_turn c o ≡ c
unfolding copy_turn
copy_turn-ended c none e = refl
copy_turn-ended c (some text) e = ground arith

copy_all-ended : (c : Copy) (texts : List (Option Bytes)) → c.is_ended ≡ true → copy_all c texts ≡ c
unfolding copy_all
copy_all-ended c [] e = refl
copy_all-ended c (o ∷ texts) e =
    ap (λ (d : Copy). copy_all d texts) (copy_turn-ended c o e) ∙ copy_all-ended c texts e

-- What user2 has when a row of calls has handed over the pieces and the marker.
copy_all-pieces :
    (pieces : List Bytes) (texts : List (Option Bytes)) (c : Copy)
    → All IsPiece pieces
    → c.is_ended ≡ false
    → present texts ≡ pieces ++ codes "EOF" ∷ []
    → ((copy_all c texts).file ≡ c.file ++ joined pieces) × ((copy_all c texts).is_ended ≡ true)
unfolding copy_all copy_turn
copy_all-pieces [] [] c h e p = absurd (ground arith)
copy_all-pieces (piece ∷ pieces) [] c h e p = absurd (ground arith)
copy_all-pieces pieces (none ∷ texts) c h e p = copy_all-pieces pieces texts c h e p
copy_all-pieces [] (some t ∷ texts) c h e p =
    let same = ap (λ l. get_or l 0 []) p in
    let (kept, ended) = copy_turn-marker c e in
    let stays = copy_all-ended (copy_turn c (some (codes "EOF"))) texts ended in
    subst
      (λ u.
        ((copy_all (copy_turn c (some u)) texts).file ≡ c.file ++ [])
        × ((copy_all (copy_turn c (some u)) texts).is_ended ≡ true))
      (sym same)
      (
        ap (λ (d : Copy). d.file) stays ∙ kept ∙ sym (append-nil c.file),
        ap (λ (d : Copy). d.is_ended) stays ∙ ended,
      )
copy_all-pieces (piece ∷ pieces) (some t ∷ texts) c h e p =
    let same = ap (λ l. get_or l 0 []) p in
    let rest = ap (drop 1) p in
    let turn = copy_turn-piece c piece e h.0.1 in
    let (file, ended) = copy_all-pieces pieces texts (with_piece c piece) h.1 refl rest in
    subst
      (λ u.
        ((copy_all (copy_turn c (some u)) texts).file ≡ c.file ++ joined (piece ∷ pieces))
        × ((copy_all (copy_turn c (some u)) texts).is_ended ≡ true))
      (sym same)
      (subst
        (λ (d : Copy).
          ((copy_all d texts).file ≡ c.file ++ joined (piece ∷ pieces))
          × ((copy_all d texts).is_ended ≡ true))
        (sym turn) (file ∙ append_assoc c.file piece (joined pieces), ended))

-- If as many calls of user1 succeed as it has messages, and those of user2 hand over the texts of the
-- messages taken, once each and in their order, with any number of calls between them that hand over
-- nothing, and no piece of the file has a NUL or begins like the marker, then user2 has written the
-- file and left its loop.
pub file_copied :
    (file buffer : Bytes) (results : List ℤ) (texts : List (Option Bytes))
    → All IsPiece (freads 509 (length file) file)
    → length (file_messages file) ≤ successes results
    → present texts ≡ map text_of (taken (file_messages file) results)
    → let c = copy_all (record { file = []; buffer = buffer; is_ended = false }) texts in
      (c.file ≡ file) × (c.is_ended ≡ true)
file_copied file buffer results texts h s p =
    let pieces = freads 509 (length file) file in
    let (copied, ended) =
      copy_all-pieces pieces texts (record { file = []; buffer = buffer; is_ended = false }) h refl
        (p ∙ ap (map text_of) (taken-all (file_messages file) results s) ∙ texts-pieces pieces h) in
    (copied ∙ joined-freads 509 (length file) file (omega arith) (omega arith), ended)
