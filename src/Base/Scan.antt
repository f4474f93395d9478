-- ===== src/Base/Scan.antt =====
-- The numbers in a text as sscanf reads them, and as printf writes them.
use Prim.Native.Nat.{ℕ, zero, suc, ◌+◌, ◌-◌, ◌*◌, ◌/◌, ◌%◌, ◌≤◌}
use native.Mathlib.Omega.{arith}
use mathlib.Core.Bool.{Bool, true, false, not, ◌&&◌, ◌||◌}
use mathlib.Core.Option.{Option, none, some}
use mathlib.Core.List.{[], ◌∷◌}
use cn_assignments.Base.Tests.{ltb, leb, ◌==◌, if◌then◌else◌}
use cn_assignments.Base.Lists.{Bytes, length}
use cn_assignments.Base.Int.{ℤ, pos, negsuc}

-- `isspace`
unfoldable pub is_space : ℕ → Bool
is_space c = (c == 32) || (leb 9 c && leb c 13)

unfoldable pub skip_spaces : Bytes → Bytes
skip_spaces [] = []
skip_spaces (c ∷ text) = let rest = skip_spaces text in if is_space c then rest else c ∷ text

-- the digits that a number starts with
unfoldable pub digits : ℕ → Bytes → ℕ
digits n [] = n
digits n (c ∷ text) =
    let rest = digits (n * 10 + (c - 48)) text in if leb 48 c && leb c 57 then rest else n

abbrev pub is_digit_first : Bytes → Bool
is_digit_first [] = false
is_digit_first (c ∷ text) = leb 48 c && leb c 57

-- the text behind those digits
unfoldable pub past_digits : Bytes → Bytes
past_digits [] = []
past_digits (c ∷ text) =
    let rest = past_digits text in if leb 48 c && leb c 57 then rest else c ∷ text

-- the digits with a sign before them
abbrev pub signed : Bool → Bytes → Option (ℤ × Bytes)
signed minus text =
    if not (is_digit_first text)
    then none
    else let n = digits 0 text in
      some (if minus && ltb 0 n then negsuc (n - 1) else pos n, past_digits text)

abbrev pub number : Bytes → Option (ℤ × Bytes)
number [] = none
number (c ∷ text) =
    if c == b'-'
    then signed true text
    else if c == b'+'
    then signed false text
    else signed false (c ∷ text)

-- `%d`: the number, which need not fit an `int`, and the text behind it
unfoldable pub scan_number : Bytes → Option (ℤ × Bytes)
scan_number text = number (skip_spaces text)

-- the decimal digits of a number, before `text`, if they are at most `fuel`
unfoldable pub digits_before : ℕ → ℕ → Bytes → Bytes
digits_before zero n text = text
digits_before (suc fuel) n text =
    let more = digits_before fuel (n / 10) ((n % 10 + 48) ∷ text) in
    if ltb n 10 then (n % 10 + 48) ∷ text else more

-- `%d` of an `int`, which has ten digits at most
unfoldable pub print_int : ℤ → Bytes
print_int (pos n) = digits_before 10 n []
print_int (negsuc n) = b'-' ∷ digits_before 10 (n + 1) []

digits_before-length :
    (fuel n : ℕ) (text : Bytes) → length (digits_before fuel n text) ≤ fuel + length text
unfolding digits_before
digits_before-length zero n text = omega arith
digits_before-length (suc fuel) n text =
    let more = digits_before-length fuel (n / 10) ((n % 10 + 48) ∷ text) in ground arith

pub print_int-length : (z : ℤ) → length (print_int z) ≤ 11
unfolding print_int
print_int-length (pos n) = omega (arith, digits_before-length 10 n [])
print_int-length (negsuc n) = omega (arith, digits_before-length 10 (n + 1) [])
