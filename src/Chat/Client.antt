-- ===== src/Chat/Client.antt =====
-- Lab_Test_1/chatclient.c: the lines that its user types, and what the server makes of them.
use cn_assignments.Base.{
  ℕ, zero, suc, ◌+◌, ◌-◌, ◌*◌, ◌/◌, ◌%◌, ◌<◌, ◌≤◌, ◌≡◌, ◌≢◌, refl, sym, ap, ◌∙◌, subst, dec_lt,
  Bool, true, false, not, ◌&&◌, Option, none, some, leb, ◌==◌, if◌then◌else◌, Bytes, [], ◌∷◌, ◌++◌,
  length, All, ℤ, pos, negsuc, arith, fgets, chomp, fgets-line, chomp-line, is_space, skip_spaces,
  digits, past_digits, scan_number, digits_before, print_int, print_int-length,
}

-- the loop that looks for a byte that is no digit
unfoldable pub all_digits : Bytes → Bool
all_digits [] = true
all_digits (c ∷ text) = let rest = all_digits text in if leb 48 c && leb c 57 then rest else false

-- What the client sends of the input: a line of digits. Of an empty line it sends no byte, and at the
-- end of the input `fgets` fails.
unfoldable pub typed_number : Bytes → Option Bytes
typed_number [] = none
typed_number (c ∷ input) =
    let buffer = chomp (fgets 1023 (c ∷ input)).0 in
    if all_digits buffer && not (length buffer == 0) then some buffer else none

-- `atoi` of the server
unfoldable pub atoi : Bytes → ℤ
atoi text = elim (scan_number text) [ none ↦ pos 0 | some p ↦ p.0 ]

-- the numbers of at most `fuel` digits are those below
abbrev limit : ℕ → ℕ
limit zero = 1
limit (suc fuel) = 10 * limit fuel

digits-digit :
    (m d : ℕ) (text : Bytes) → d < 10 → digits m ((d + 48) ∷ text) ≡ digits (m * 10 + d) text
unfolding digits
digits-digit m d text h =
    let same : m * 10 + (d + 48 - 48) ≡ m * 10 + d = omega arith in
    let e = ap (λ k. digits k text) same in ground arith

-- the last digit, and the digits before it
digits_before-small :
    (fuel n : ℕ) (text : Bytes) → n < 10 → digits_before (suc fuel) n text ≡ (n % 10 + 48) ∷ text
unfolding digits_before
digits_before-small fuel n text h = ground arith

digits_before-large :
    (fuel n : ℕ) (text : Bytes)
    → 10 ≤ n
    → digits_before (suc fuel) n text ≡ digits_before fuel (n / 10) ((n % 10 + 48) ∷ text)
unfolding digits_before
digits_before-large fuel n text h = ground arith

digits-before :
    (fuel n : ℕ) (text : Bytes)
    → n < limit (suc fuel)
    → digits 0 (digits_before (suc fuel) n text) ≡ digits n text
digits-before zero n text h =
    ap (digits 0) (digits_before-small 0 n text (omega arith))
    ∙ digits-digit 0 (n % 10) text (omega arith)
    ∙ ap (λ k. digits k text) (omega arith)
digits-before (suc fuel) n text h =
    let rest = digits-before fuel (n / 10) ((n % 10 + 48) ∷ text) (omega arith) in
    elim (dec_lt n 10) [
      | yes p ↦
          ap (digits 0) (digits_before-small (suc fuel) n text p)
          ∙ digits-digit 0 (n % 10) text (omega arith)
          ∙ ap (λ k. digits k text) (omega arith)
      | no p ↦
          ap (digits 0) (digits_before-large (suc fuel) n text (omega arith))
          ∙ rest
          ∙ digits-digit (n / 10) (n % 10) text (omega arith)
          ∙ ap (λ k. digits k text) (omega arith)
    ]

abbrev IsDigit : ℕ → Type 0
IsDigit c = (48 ≤ c) × (c ≤ 57)

digits_before-IsDigit :
    (fuel n : ℕ) (text : Bytes) → All IsDigit text → All IsDigit (digits_before fuel n text)
digits_before-IsDigit zero n text h = unfold digits_before in h
digits_before-IsDigit (suc fuel) n text h =
    let more =
      digits_before-IsDigit fuel (n / 10) ((n % 10 + 48) ∷ text) ((omega arith, omega arith), h) in
    elim (dec_lt n 10) [
      | yes p ↦
          subst (All IsDigit) (sym (digits_before-small fuel n text p))
            ((omega arith, omega arith), h)
      | no p ↦ subst (All IsDigit) (sym (digits_before-large fuel n text (omega arith))) more
    ]

digits_before-longer :
    (fuel n : ℕ) (text : Bytes) → length text ≤ length (digits_before fuel n text)
unfolding digits_before
digits_before-longer zero n text = omega arith
digits_before-longer (suc fuel) n text =
    let more = digits_before-longer fuel (n / 10) ((n % 10 + 48) ∷ text) in ground arith

digits_before-nonempty : (fuel n : ℕ) → 0 < length (digits_before (suc fuel) n [])
unfolding digits_before
digits_before-nonempty fuel n =
    let more = digits_before-longer fuel (n / 10) ((n % 10 + 48) ∷ []) in ground arith

scan_number-digits :
    (text : Bytes)
    → All IsDigit text
    → 0 < length text
    → scan_number text ≡ some (pos (digits 0 text), past_digits text)
unfolding scan_number skip_spaces is_space
scan_number-digits [] h p = absurd (omega arith)
scan_number-digits (c ∷ text) h p = let l = h.0.0 in let u = h.0.1 in ground arith

IsDigit-plain : (text : Bytes) → All IsDigit text → All (λ c. (c ≢ b'\n') × (c ≢ 0)) text
IsDigit-plain [] h = tt
IsDigit-plain (c ∷ text) h =
    let l = h.0.0 in ((λ e. omega arith, λ e. omega arith), IsDigit-plain text h.1)

all_digits-IsDigit : (text : Bytes) → All IsDigit text → all_digits text ≡ true
unfolding all_digits
all_digits-IsDigit [] h = refl
all_digits-IsDigit (c ∷ text) h =
    let l = h.0.0 in let u = h.0.1 in let rest = all_digits-IsDigit text h.1 in ground arith

-- what the client makes of a line
abbrev sent_of : Bytes → Option Bytes
sent_of buffer = if all_digits buffer && not (length buffer == 0) then some buffer else none

typed_number-line :
    (c : ℕ) (line rest : Bytes)
    → All (λ d. (d ≢ b'\n') × (d ≢ 0)) (c ∷ line)
    → length (c ∷ line) < 1023
    → typed_number (c ∷ line ++ b'\n' ∷ rest) ≡ sent_of (c ∷ line)
unfolding typed_number
typed_number-line c line rest h p =
    ap (λ (r : Bytes × Bytes). sent_of (chomp r.0)) (fgets-line 1023 (c ∷ line) rest h p)
    ∙ ap sent_of (chomp-line (c ∷ line) h)

digits_sent :
    (text rest : Bytes)
    → All IsDigit text
    → 0 < length text
    → length text < 1023
    → typed_number (text ++ b'\n' ∷ rest) ≡ some text
digits_sent [] rest h p q = absurd (omega arith)
digits_sent (c ∷ text) rest h p q =
    let d = all_digits-IsDigit (c ∷ text) h in
    typed_number-line c text rest (IsDigit-plain (c ∷ text) h) q ∙ ground arith

-- A number from 0 on that an int holds, typed in decimal digits, is sent as it was typed, and the
-- server reads the same number; a negative number is not sent.
pub atoi-typed_number :
    (n : ℕ) (rest : Bytes)
    → n < 2147483648
    → (typed_number (print_int (pos n) ++ b'\n' ∷ rest) ≡ some (print_int (pos n)))
      × (atoi (print_int (pos n)) ≡ pos n)
      × (typed_number (print_int (negsuc n) ++ b'\n' ∷ rest) ≡ none)
unfolding print_int atoi
atoi-typed_number n rest h =
    let text = digits_before 10 n [] in
    let minus = digits_before 10 (n + 1) [] in
    let d = digits_before-IsDigit 10 n [] tt in
    let p = digits_before-nonempty 9 n in
    let short = print_int-length (pos n) in
    let long = print_int-length (negsuc n) in
    (
      digits_sent text rest d p (omega (arith, short)),
      ap (λ (o : Option (ℤ × Bytes)). elim o [ none ↦ pos 0 | some r ↦ r.0 ])
            (scan_number-digits text d p)
          ∙ ap pos (digits-before 9 n [] (omega arith) ∙ unfold digits in refl),
      typed_number-line b'-' minus rest
            (
              (λ e. omega arith, λ e. omega arith),
              IsDigit-plain minus (digits_before-IsDigit 10 (n + 1) [] tt),
            )
            (omega (arith, long))
          ∙ unfold all_digits in ground arith,
    )
