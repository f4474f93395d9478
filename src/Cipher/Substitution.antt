-- ===== src/Cipher/Substitution.antt =====
-- The substitution of a letter and its inverse.
use cn_assignments.Base.{
  ℕ, zero, suc, ◌+◌, ◌-◌, ◌%◌, ◌<◌, ◌≡◌, ◌≢◌, ap, subst, ◌∙◌, ◌&&◌, leb, Bytes, List, [], ◌∷◌,
  get_or, All, arith, ℕ_discrete, Bool-cases, inl, inr,
}
use cn_assignments.Cipher.{substitute}

-- The key has capital letters for all letters, and `inverse` leads back.
abbrev pub LeadsBack : Bytes → Bytes → ℕ → Type 0
LeadsBack key inverse i =
    (64 < get_or key i 0)
    × (get_or key i 0 < 91)
    × (get_or inverse (get_or key i 0 - 65) 0 ≡ i + 65)

pub IsInverse : Bytes → Bytes → Type 0
IsInverse key inverse = (i : ℕ) → i < 26 → LeadsBack key inverse i

abbrev pub below : ℕ → List ℕ
below zero = []
below (suc n) = n ∷ below n

All-below : (P : ℕ → Type 0) (n : ℕ) → All P (below n) → (i : ℕ) → i < n → P i
All-below P zero h i p = absurd (omega arith)
All-below P (suc n) h i p = elim (ℕ_discrete n i) [
  | yes e ↦ subst P e h.0
  | no ne ↦ All-below P n h.1 i (omega arith)
]

pub All-IsInverse :
    (key inverse : Bytes) → All (LeadsBack key inverse) (below 26) → IsInverse key inverse
unfolding IsInverse
All-IsInverse key inverse h = All-below (LeadsBack key inverse) 26 h

upper : (key : Bytes) (c : ℕ) → 64 < c → c < 91 → substitute key c ≡ get_or key (c - 65) 0
unfolding substitute
upper key c p q = ground arith

lower :
    (key : Bytes) (c : ℕ)
    → 96 < c
    → c < 123
    → substitute key c ≡ (get_or key (c - 97) 0 + 97 - 65) % 256
unfolding substitute
lower key c p q = ground arith

-- The three kinds of characters.
pub data Kind (c : ℕ) : Type 0 where
  is_upper : 64 < c → c < 91 → Kind c
  is_lower : 96 < c → c < 123 → Kind c
  is_other : ((key : Bytes) → substitute key c ≡ c) → Kind c

kind : (c : ℕ) → Kind c
unfolding substitute
kind c = elim (Bool-cases (leb 65 c && leb c 90)) [
  | inl t ↦ is_upper (ground arith) (ground arith)
  | inr u ↦ elim (Bool-cases (leb 97 c && leb c 122)) [
    | inl t ↦ is_lower (ground arith) (ground arith)
    | inr v ↦ is_other (λ key. ground arith)
  ]
]

back_upper :
    (key inverse : Bytes) (c : ℕ)
    → IsInverse key inverse
    → 64 < c
    → c < 91
    → substitute inverse (substitute key c) ≡ c
unfolding IsInverse
back_upper key inverse c h p q =
    let (lo, hi, e) = h (c - 65) (omega arith) in
    ap (substitute inverse) (upper key c p q)
    ∙ upper inverse (get_or key (c - 65) 0) lo hi
    ∙ e
    ∙ omega arith

back_lower :
    (key inverse : Bytes) (c : ℕ)
    → IsInverse key inverse
    → 96 < c
    → c < 123
    → substitute inverse (substitute key c) ≡ c
unfolding IsInverse
back_lower key inverse c h p q =
    let (lo, hi, e) = h (c - 97) (omega arith) in
    let x : ℕ = get_or key (c - 97) 0 in
    let y : (x + 97 - 65) % 256 ≡ x + 32 = omega arith in
    let z : x + 32 - 97 ≡ x - 65 = omega arith in
    ap (substitute inverse) (lower key c p q ∙ y)
    ∙ lower inverse (x + 32) (omega arith) (omega arith)
    ∙ ap (λ i. (get_or inverse i 0 + 97 - 65) % 256) z
    ∙ ap (λ i. (i + 97 - 65) % 256) e
    ∙ omega arith

pub substitute-inverse :
    (key inverse : Bytes) (c : ℕ)
    → IsInverse key inverse
    → substitute inverse (substitute key c) ≡ c
substitute-inverse key inverse c h = elim (kind c) [
  | is_upper p q ↦ back_upper key inverse c h p q
  | is_lower p q ↦ back_lower key inverse c h p q
  | is_other e ↦ ap (substitute inverse) (e key) ∙ e inverse
]

pub substitute-nonzero :
    (key inverse : Bytes) (c : ℕ) → IsInverse key inverse → c ≢ 0 → substitute key c ≢ 0
unfolding IsInverse
substitute-nonzero key inverse c h ne = elim (kind c) [
  | is_upper p q ↦
      let (lo, hi, e) = h (c - 65) (omega arith) in λ z. let u = upper key c p q in omega arith
  | is_lower p q ↦
      let (lo, hi, e) = h (c - 97) (omega arith) in λ z. let u = lower key c p q in omega arith
  | is_other e ↦ λ z. let u = e key in omega arith
]
