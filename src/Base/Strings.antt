-- ===== src/Base/Strings.antt =====
-- Byte strings from literals, and the comparisons that strncmp and strcmp make with one.
use Prim.Native.Char.{code}
use Prim.Native.String.{String}
use mathlib.Core.Bool.{Bool, true, false, ◌&&◌}
use mathlib.Core.Path.{◌≡◌, refl, ap₂}
use native.Mathlib.Omega.{arith}
use mathlib.Core.List.{[], ◌∷◌, ◌++◌}
use cn_assignments.Base.Tests.{◌==◌, ==→eq}
use cn_assignments.Base.Lists.{Bytes, take}

-- the bytes of a literal in ASCII
abbrev pub codes : String → Bytes
codes String.[] = []
codes (String.◌∷◌ c s) = code c ∷ codes s

-- `strncmp(text, literal, strlen(literal)) == 0`, for a text up to its NUL
unfoldable pub starts_with : Bytes → Bytes → Bool
starts_with [] text = true
starts_with (c ∷ cs) [] = false
starts_with (c ∷ cs) (d ∷ text) = (c == d) && starts_with cs text

-- `strcmp(a, b) == 0`, for texts up to their NUL
unfoldable pub same_text : Bytes → Bytes → Bool
same_text [] [] = true
same_text [] (d ∷ b) = false
same_text (c ∷ a) [] = false
same_text (c ∷ a) (d ∷ b) = (c == d) && same_text a b

pub same_text-eq : (a b : Bytes) → same_text a b ≡ true → a ≡ b
unfolding same_text
same_text-eq [] [] h = refl
same_text-eq [] (d ∷ b) h = absurd (ground arith)
same_text-eq (c ∷ a) [] h = absurd (ground arith)
same_text-eq (c ∷ a) (d ∷ b) h =
    let rest = same_text-eq a b (ground arith) in
    ap₂ (λ x (xs : Bytes). x ∷ xs) (==→eq c d (ground arith)) rest

-- The first bytes, at most three, are not the first ones of "EOF".
abbrev pub IsNoEnd : Bytes → Type 0
IsNoEnd chunk = starts_with (take 3 chunk) (codes "EOF") ≡ false

pub IsNoEnd-starts_with :
    (chunk rest : Bytes) → IsNoEnd chunk → starts_with (codes "EOF") (chunk ++ rest) ≡ false
unfolding starts_with
IsNoEnd-starts_with [] rest h = ground arith
IsNoEnd-starts_with (a ∷ []) rest h = ground arith
IsNoEnd-starts_with (a ∷ b ∷ []) rest h = ground arith
IsNoEnd-starts_with (a ∷ b ∷ c ∷ chunk) rest h = ground arith
