-- ===== src/Cipher/WholeFile.antt =====
-- The substitution over a file that comes in pieces.
use cn_assignments.Base.{
  joined, ℕ, zero, suc, ◌≤◌, ◌≡◌, ◌≢◌, refl, sym, ap, subst, ◌∙◌, Bool, true, false, none, some,
  ◌==◌, if◌then◌else◌, Bytes, List, [], ◌∷◌, ◌++◌, length, map, All, fgets, append_assoc, arith,
}
use cn_assignments.Cipher.{
  before_marker, receive_file, substitute, encrypt_buffer, until_nul, encrypt_from, encrypt_file,
  recieve_encrypt_send,
}
use cn_assignments.Cipher.Substitution.{IsInverse, substitute-inverse, substitute-nonzero}

-- what `fgets` makes of a character and the rest
abbrev picked : Bool → ℕ → Bytes → Bytes × Bytes → Bytes × Bytes
picked b c file r = if b then (c ∷ [], file) else (c ∷ r.0, r.1)

rejoined :
    (b : Bool) (c : ℕ) (file : Bytes) (r : Bytes × Bytes)
    → r.0 ++ r.1 ≡ file
    → (picked b c file r).0 ++ (picked b c file r).1 ≡ c ∷ file
rejoined true c file r e = refl
rejoined false c file r e = ap (λ t. c ∷ t) e

fgets-splits : (n : ℕ) (file : Bytes) → (fgets n file).0 ++ (fgets n file).1 ≡ file
unfolding fgets
fgets-splits zero file = refl
fgets-splits (suc n) [] = refl
fgets-splits (suc n) (c ∷ file) = rejoined (c == b'\n') c file (fgets n file) (fgets-splits n file)

fgets-shorter : (n : ℕ) (file : Bytes) → length (fgets n file).1 ≤ length file
unfolding fgets
fgets-shorter zero file = omega arith
fgets-shorter (suc n) [] = omega arith
fgets-shorter (suc n) (c ∷ file) = ground (arith, fgets-shorter n file)

fgets-rest : (n c : ℕ) (file : Bytes) → length (fgets (suc n) (c ∷ file)).1 ≤ length file
unfolding fgets
fgets-rest n c file = ground (arith, fgets-shorter n file)

-- no NUL in a text
abbrev pub IsText : Bytes → Type 0
IsText text = All (λ c. c ≢ 0) text

IsText-parts : (a b : Bytes) → IsText (a ++ b) → IsText a × IsText b
IsText-parts [] b h = (tt, h)
IsText-parts (c ∷ a) b h = let (p, q) = IsText-parts a b h.1 in ((h.0, p), q)

map-append : (f : ℕ → ℕ) (a b : Bytes) → map f (a ++ b) ≡ map f a ++ map f b
map-append f [] b = refl
map-append f (c ∷ a) b = ap (λ t. f c ∷ t) (map-append f a b)

until_nul-more : (c : ℕ) (text : Bytes) → c ≢ 0 → until_nul (c ∷ text) ≡ c ∷ until_nul text
unfolding until_nul
until_nul-more c text h = ground arith

buffer-map :
    (key inverse text : Bytes)
    → IsInverse key inverse
    → IsText text
    → until_nul (encrypt_buffer key text) ≡ map (substitute key) text
unfolding until_nul encrypt_buffer
buffer-map key inverse [] k h = refl
buffer-map key inverse (c ∷ text) k h =
    let z = h.0 in
    let first : encrypt_buffer key (c ∷ text) ≡ substitute key c ∷ encrypt_buffer key text =
      ground arith in
    ap until_nul first
    ∙ until_nul-more (substitute key c) (encrypt_buffer key text)
        (substitute-nonzero key inverse c k h.0)
    ∙ ap (λ t. substitute key c ∷ t) (buffer-map key inverse text k h.1)

pub encrypt_from-map :
    (n : ℕ) (key inverse text : Bytes)
    → IsInverse key inverse
    → IsText text
    → length text ≤ n
    → encrypt_from n key text ≡ map (substitute key) text
unfolding encrypt_from
encrypt_from-map zero key inverse [] k h p = refl
encrypt_from-map zero key inverse (c ∷ text) k h p = absurd (omega arith)
encrypt_from-map (suc n) key inverse [] k h p = refl
encrypt_from-map (suc n) key inverse (c ∷ text) k h p =
    let e = fgets-splits 99 (c ∷ text) in
    let (a, b) =
      IsText-parts (fgets 99 (c ∷ text)).0 (fgets 99 (c ∷ text)).1 (subst IsText (sym e) h) in
    ap (λ t. t ++ encrypt_from n key (fgets 99 (c ∷ text)).1)
      (buffer-map key inverse (fgets 99 (c ∷ text)).0 k a)
    ∙ ap (λ t. map (substitute key) (fgets 99 (c ∷ text)).0 ++ t)
        (encrypt_from-map n key inverse (fgets 99 (c ∷ text)).1 k b
          (omega (arith, fgets-rest 98 c text)))
    ∙ sym (map-append (substitute key) (fgets 99 (c ∷ text)).0 (fgets 99 (c ∷ text)).1)
    ∙ ap (map (substitute key)) e

pub map-nonzero :
    (key inverse text : Bytes)
    → IsInverse key inverse
    → IsText text
    → IsText (map (substitute key) text)
map-nonzero key inverse [] k h = tt
map-nonzero key inverse (c ∷ text) k h =
    (substitute-nonzero key inverse c k h.0, map-nonzero key inverse text k h.1)

length-map : (f : ℕ → ℕ) (text : Bytes) → length (map f text) ≡ length text
length-map f [] = refl
length-map f (c ∷ text) = ap suc (length-map f text)

pub map-inverse :
    (key inverse text : Bytes)
    → IsInverse key inverse
    → map (substitute inverse) (map (substitute key) text) ≡ text
map-inverse key inverse [] k = refl
map-inverse key inverse (c ∷ text) k =
    ap (λ d. d ∷ map (substitute inverse) (map (substitute key) text))
      (substitute-inverse key inverse c k)
    ∙ ap (λ t. c ∷ t) (map-inverse key inverse text k)

pub receive_file-joined :
    (pieces : List Bytes) (last final : Bytes)
    → All (λ piece. before_marker piece ≡ none) pieces
    → before_marker final ≡ some last
    → receive_file (pieces ++ final ∷ []) ≡ joined pieces ++ last
unfolding receive_file
receive_file-joined [] last final h e = ground arith
receive_file-joined (piece ∷ pieces) last final h e =
    let rest = receive_file-joined pieces last final h.1 e in
    let f = h.0 in
    let kept : receive_file (piece ∷ pieces ++ final ∷ [])
        ≡ piece ++ receive_file (pieces ++ final ∷ []) =
      ground arith in
    kept ∙ ap (λ t. piece ++ t) rest ∙ sym (append_assoc piece (joined pieces) last)

-- A client sends a file without NUL in pieces, of which the last alone shows the marker, under a
-- key of capital letters that `inverse` undoes: what comes back is the file with each letter
-- replaced, and sent again under the inverse key, if that is one in turn, it gives the file.
pub recieve_encrypt_send_lem :
    (key inverse : Bytes) (pieces : List Bytes) (last final : Bytes)
    → IsInverse key inverse
    → IsInverse inverse key
    → All (λ piece. before_marker piece ≡ none) pieces
    → before_marker final ≡ some last
    → IsText (joined pieces ++ last)
    → (recieve_encrypt_send key (pieces ++ final ∷ [])
        ≡ map (substitute key) (joined pieces ++ last))
      × (encrypt_file inverse (recieve_encrypt_send key (pieces ++ final ∷ []))
          ≡ joined pieces ++ last)
unfolding recieve_encrypt_send
recieve_encrypt_send_lem key inverse pieces last final k l h e t =
    let text = joined pieces ++ last in
    let once =
      ap (encrypt_file key) (receive_file-joined pieces last final h e)
      ∙ encrypt_from-map (length text) key inverse text k t (omega arith) in
    (
      once,
      ap (encrypt_file inverse) once
          ∙ encrypt_from-map (length (map (substitute key) text)) inverse key
              (map (substitute key) text) l (map-nonzero key inverse text k t) (omega arith)
          ∙ map-inverse key inverse text k,
    )
