-- ===== src/Base/Files.antt =====
-- Reading a text file by lines, as fgets does, and files made of lines.
use Prim.Native.Nat.{ℕ, zero, suc, ◌<◌, ◌≤◌}
use mathlib.Core.Path.{◌≡◌, refl, ap, ◌∙◌}
use mathlib.Core.Logic.{◌≢◌}
use mathlib.Core.List.{List, [], ◌∷◌, ◌++◌}
use native.Mathlib.Omega.{arith}
use cn_assignments.Base.Tests.{if◌then◌else◌, ◌==◌}
use cn_assignments.Base.Lists.{Bytes, length, All, take, drop, length-drop}

-- `fgets` with room for `n` bytes before the NUL: the line, and the rest of the file
unfoldable pub fgets : ℕ → Bytes → Bytes × Bytes
fgets zero file = ([], file)
fgets (suc n) [] = ([], [])
fgets (suc n) (c ∷ file) =
    let rest = fgets n file in if c == b'\n' then (c ∷ [], file) else (c ∷ rest.0, rest.1)

-- the text of a line, up to a NUL, without its newline
unfoldable pub chomp : Bytes → Bytes
chomp [] = []
chomp (c ∷ []) = if c == 0 then [] else if c == b'\n' then [] else c ∷ []
chomp (c ∷ d ∷ line) = let rest = chomp (d ∷ line) in if c == 0 then [] else c ∷ rest

-- a file of lines
unfoldable pub unlines : List Bytes → Bytes
unlines [] = []
unlines (line ∷ lines) = line ++ b'\n' ∷ unlines lines

-- a text that `fgets` with room for `n` bytes reads in one piece with its newline
abbrev pub IsLine : ℕ → Bytes → Type 0
IsLine n line = All (λ c. (c ≢ b'\n') × (c ≢ 0)) line × (length line < n)

pub fgets-line :
    (n : ℕ) (line rest : Bytes)
    → All (λ c. (c ≢ b'\n') × (c ≢ 0)) line
    → length line < n
    → fgets n (line ++ b'\n' ∷ rest) ≡ (line ++ b'\n' ∷ [], rest)
unfolding fgets
fgets-line zero line rest h p = absurd (omega arith)
fgets-line (suc n) [] rest h p = refl
fgets-line (suc n) (c ∷ line) rest h p =
    let e = fgets-line n line rest h.1 (omega arith) in let ne = h.0.0 in ground arith

pub chomp-line :
    (line : Bytes) → All (λ c. (c ≢ b'\n') × (c ≢ 0)) line → chomp (line ++ b'\n' ∷ []) ≡ line
unfolding chomp
chomp-line [] h = refl
chomp-line (c ∷ []) h = let ne = h.0.1 in ground arith
chomp-line (c ∷ d ∷ line) h = let ne = h.0.1 in let e = chomp-line (d ∷ line) h.1 in ground arith

-- The pieces that `fread` yields, of `size` bytes at most; a file has at most as many as bytes.
unfoldable pub freads : ℕ → ℕ → Bytes → List Bytes
freads size zero file = []
freads size (suc n) [] = []
freads size (suc n) (c ∷ file) = take size (c ∷ file) ∷ freads size n (drop size (c ∷ file))

-- the pieces as one text
abbrev pub joined : List Bytes → Bytes
joined [] = []
joined (piece ∷ pieces) = piece ++ joined pieces

pub take-drop : (n : ℕ) (xs : Bytes) → take n xs ++ drop n xs ≡ xs
take-drop zero xs = refl
take-drop (suc n) [] = refl
take-drop (suc n) (x ∷ xs) = ap (λ t. x ∷ t) (take-drop n xs)

pub joined-freads :
    (size n : ℕ) (file : Bytes) → 0 < size → length file ≤ n → joined (freads size n file) ≡ file
unfolding freads
joined-freads size zero [] p h = refl
joined-freads size zero (c ∷ file) p h = absurd (omega arith)
joined-freads size (suc n) [] p h = refl
joined-freads size (suc n) (c ∷ file) p h =
    ap (λ t. take size (c ∷ file) ++ t)
      (joined-freads size n (drop size (c ∷ file)) p (omega (arith, length-drop size (c ∷ file))))
    ∙ take-drop size (c ∷ file)
