-- ===== src/Base/Pigeonhole.antt =====
-- More numbers than places: two of them share one.
use Prim.Native.Nat.{ℕ, zero, suc, ◌<◌}
use mathlib.Core.Path.{◌≡◌, subst}
use mathlib.Core.Logic.{◌≢◌}
use native.Mathlib.Omega.{arith}
use native.Mathlib.Decide.{ℕ_discrete}
use cn_assignments.Base.Tests.{if◌then◌else◌, ◌==◌}

-- `R k i` puts number `k` in place `i`. No place holds two numbers, so `n` places cannot hold
-- `n + 1` numbers. In the recursion the place of the last number is filled by the last place.
pub pigeonhole :
    (n : ℕ) (R : ℕ → ℕ → Type 0)
    → ((k : ℕ) → k < suc n → (i : ℕ) × (i < n) × R k i)
    → ((j k i : ℕ) → j < suc n → k < suc n → R j i → R k i → j ≡ k)
    → ⊥
pigeonhole zero R place alone = let (i, h, r) = place 0 (omega arith) in omega arith
pigeonhole (suc n) R place alone =
    let (last, below, there) = place (suc n) (omega arith) in
    pigeonhole n (λ k i. R k (if i == last then n else i))
      (λ k h.
        let (i, l, r) = place k (omega arith) in
        let apart : i ≢ last = λ e.
          omega (arith, alone k (suc n) last (omega arith) (omega arith) (subst (R k) e r) there) in
        elim (ℕ_discrete i n) [
          | yes top ↦
              let e : i ≡ (if last == last then n else last) = ground arith in
              (last, omega arith, subst (R k) e r)
          | no other ↦
              let e : i ≡ (if i == last then n else i) = ground arith in
              (i, omega arith, subst (R k) e r)
        ])
      (λ j k i hj hk rj rk. alone j k _ (omega arith) (omega arith) rj rk)
