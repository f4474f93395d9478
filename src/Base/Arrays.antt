-- ===== src/Base/Arrays.antt =====
-- C arrays of a fixed size as functions of the index, and counting over their first `n` places.
use Prim.Native.Nat.{ℕ, zero, suc, ◌+◌, ◌<◌, ◌≤◌}
use mathlib.Core.Path.{◌≡◌, refl, sym, subst, fun_ext}
use mathlib.Core.Logic.{◌≢◌, inl, inr}
use mathlib.Core.Bool.{Bool, true, false}
use mathlib.Core.Option.{Option, none, some}
use native.Mathlib.Omega.{arith}
use native.Mathlib.Decide.{dec_lt, ℕ_discrete}
use cn_assignments.Base.Tests.{if◌then◌else◌, ◌==◌, Bool-cases, Option-cases}

abbrev pub update {ℓ} : {A : Type ℓ} → (ℕ → A) → ℕ → A → ℕ → A
update f i v j = if i == j then v else f j

-- how many of the first `n` flags are set
unfoldable pub count : ℕ → (ℕ → Bool) → ℕ
count zero f = 0
count (suc n) f = count n f + (if f n then 1 else 0)

count-update_above :
    (n : ℕ) (f : ℕ → Bool) (i : ℕ) (v : Bool) → n ≤ i → count n (update f i v) ≡ count n f
unfolding count
count-update_above zero f i v h = refl
count-update_above (suc n) f i v h = ground (arith, count-update_above n f i v)

pub count-update :
    (n : ℕ) (f : ℕ → Bool) (i : ℕ) (v : Bool)
    → i < n
    → count n (update f i v) + (if f i then 1 else 0) ≡ count n f + (if v then 1 else 0)
unfolding count
count-update zero f i v h = absurd (omega arith)
count-update (suc n) f i v h = elim (dec_lt i n) [
  | yes below ↦ ground (arith, count-update n f i v below)
  | no last ↦ ground (arith, count-update_above n f i v)
]

pub count-le : (n : ℕ) (f : ℕ → Bool) → count n f ≤ n
unfolding count
count-le zero f = omega arith
count-le (suc n) f = ground (arith, count-le n f)

pub count-all : (n : ℕ) → count n (λ i. true) ≡ n
unfolding count
count-all zero = refl
count-all (suc n) = ground (arith, count-all n)

-- `for (i = start; i < start + n; i++) if (f[i]) return i;`
unfoldable pub find_from : ℕ → ℕ → (ℕ → Bool) → Option ℕ
find_from zero i f = none
find_from (suc n) i f = let rest = find_from n (i + 1) f in if f i then some i else rest

-- the index that a search finds: in range, set, and with no set flag before it
pub record IsFirst (n i : ℕ) (f : ℕ → Bool) (k : ℕ) : Type 0 where
  pub lower : i ≤ k
  pub upper : k < i + n
  pub is_set : f k ≡ true
  pub before : (j : ℕ) → i ≤ j → j < k → f j ≡ false

find_from-later :
    (n i k : ℕ) (f : ℕ → Bool) → f i ≡ false → IsFirst n (i + 1) f k → IsFirst (suc n) i f k
find_from-later n i k f h r = record {
  lower = omega (arith, r.lower);
  upper = omega (arith, r.upper);
  is_set = r.is_set;
  before = λ j p q. elim (ℕ_discrete i j) [
    | yes e ↦ subst (λ t. f t ≡ false) e h
    | no ne ↦ r.before j (omega arith) q
  ];
}

pub find_from-some : (n i : ℕ) (f : ℕ → Bool) {k : ℕ} → find_from n i f ≡ some k → IsFirst n i f k
unfolding find_from
find_from-some zero i f h = absurd (ground arith)
find_from-some (suc n) i f {k} h = elim (Bool-cases (f i)) [
  | inl t ↦
      let e : i ≡ k = ground arith in
      record {
        lower = omega arith;
        upper = omega arith;
        is_set = subst (λ j. f j ≡ true) e t;
        before = λ j p q. absurd (omega arith);
      }
  | inr u ↦ find_from-later n i k f u (find_from-some n (i + 1) f (ground arith))
]

pub find_from-none :
    (n i : ℕ) (f : ℕ → Bool) → find_from n i f ≡ none → (j : ℕ) → i ≤ j → j < i + n → f j ≡ false
unfolding find_from
find_from-none zero i f h j p q = absurd (omega arith)
find_from-none (suc n) i f h j p q = elim (ℕ_discrete i j) [
  | yes e ↦ subst (λ t. f t ≡ false) e (ground arith)
  | no ne ↦ find_from-none n (i + 1) f (ground arith) j (omega arith) (omega arith)
]

pub count-zero : (n : ℕ) (f : ℕ → Bool) → ((j : ℕ) → j < n → f j ≡ false) → count n f ≡ 0
unfolding count
count-zero zero f h = refl
count-zero (suc n) f h =
    ground (arith, count-zero n f (λ j p. h j (omega arith)), h n (omega arith))

-- A search for a flag that is set somewhere succeeds.
pub find_from_of_count :
    (n : ℕ) (f : ℕ → Bool) → 0 < count n f → (k : ℕ) × (find_from n 0 f ≡ some k)
find_from_of_count n f h = elim (Option-cases (find_from n 0 f)) [
  | inl e ↦
      absurd (
        omega (arith, count-zero n f (λ j p. find_from-none n 0 f e j (omega arith) (omega arith))))
  | inr found ↦ found
]

pub count-pos : (n i : ℕ) (f : ℕ → Bool) → i < n → f i ≡ true → 0 < count n f
unfolding count
count-pos zero i f h t = absurd (omega arith)
count-pos (suc n) i f h t = elim (ℕ_discrete i n) [
  | yes e ↦ let t' : f n ≡ true = subst (λ j. f j ≡ true) e t in ground arith
  | no ne ↦ ground (arith, count-pos n i f (omega arith) t)
]

-- A search with one flag set finds that one.
pub find_from-only :
    (n k : ℕ) (f : ℕ → Bool)
    → k < n
    → f k ≡ true
    → ((j : ℕ) → j < n → f j ≡ true → j ≡ k)
    → find_from n 0 f ≡ some k
find_from-only n k f h t only = elim (Option-cases (find_from n 0 f)) [
  | inl e ↦ let u : f k ≡ false = find_from-none n 0 f e k (omega arith) (omega arith) in cc
  | inr (i, e) ↦
      let r = find_from-some n 0 f e in
      let same : i ≡ k = only i (omega (arith, r.upper)) r.is_set in rw same at e
]

pub update_twice {ℓ} :
    {A : Type ℓ} (f : ℕ → A) (i : ℕ) (a b : A) → update (update f i a) i b ≡ update f i b
update_twice f i a b = fun_ext (λ j. ground arith)

-- What holds of the new element at its place and of the old ones elsewhere holds of the updated array.
pub update-cases {ℓ κ} :
    {A : Type ℓ} (P : ℕ → A → Type κ) (f : ℕ → A) (i : ℕ) (a : A) (j : ℕ)
    → P i a
    → (j ≢ i → P j (f j))
    → P j (update f i a j)
update-cases P f i a j p q = elim (ℕ_discrete i j) [
  | yes e ↦
      let here : update f i a i ≡ a = ground arith in
      subst (λ k. P k (update f i a k)) e (subst (P i) (sym here) p)
  | no ne ↦
      let there : update f i a j ≡ f j = ground arith in
      subst (P j) (sym there) (q (λ e. ne (sym e)))
]
