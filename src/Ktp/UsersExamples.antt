-- ===== src/Ktp/UsersExamples.antt =====
-- A short file from user1 to user2, with calls that fail on both sides.
use cn_assignments.Base.{
  ◌≡◌, refl, arith, true, false, none, some, pos, minus_one, [], ◌∷◌, codes, map, starts_with,
  strlen, freads, All,
}
use cn_assignments.Ktp.Users.{
  taken, file_messages, copy_all, copy_turn, text_of, present, IsPiece, file_copied,
}

-- a piece shorter than the one before shows the end of that one behind it
stale :
    (copy_all
      (record { file = []; buffer = []; is_ended = false })
      (some (codes "xOF") ∷ some (codes "E") ∷ [])).is_ended
    ≡ true
unfolding copy_all copy_turn starts_with
stale = refl

hello_pieces : All IsPiece (freads 509 5 (codes "hello"))
unfolding freads starts_with
hello_pieces = ground arith

hello_present :
    present (none ∷ some (codes "hello") ∷ none ∷ some (codes "EOF") ∷ [])
    ≡ map text_of (taken (file_messages (codes "hello")) (minus_one ∷ pos 5 ∷ pos 4 ∷ []))
unfolding freads taken strlen
hello_present = refl

file_copied_example :
    let c =
      copy_all
        (record { file = []; buffer = []; is_ended = false })
        (none ∷ some (codes "hello") ∷ none ∷ some (codes "EOF") ∷ []) in
    (c.file ≡ codes "hello") × (c.is_ended ≡ true)
unfolding freads
file_copied_example =
    file_copied (codes "hello") [] (minus_one ∷ pos 5 ∷ pos 4 ∷ [])
      (none ∷ some (codes "hello") ∷ none ∷ some (codes "EOF") ∷ []) hello_pieces (omega arith)
      hello_present
