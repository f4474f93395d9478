-- ===== src/Cldp/Checksum.antt =====
-- The checksum of an IP header: what it accepts and what it detects.
use cn_assignments.Base.{
  ℕ, ◌+◌, ◌*◌, ◌%◌, ◌^◌, ◌≤◌, ◌<◌, ◌≡◌, refl, sym, ap, ◌∙◌, true, List, [], ◌∷◌, ◌++◌, All, length,
  arith, ◌⊎◌, eq→==,
}
use cn_assignments.Cldp.{
  IpHeader, words, sum_words, fold_carries, calculate_checksum, with_check, checksum_matches,
}

-- A header whose checksum was set by the sender passes the test of the receiver.
pub with_check_matches : (h : IpHeader) → checksum_matches (with_check h) ≡ true
unfolding checksum_matches
with_check_matches h = eq→== _ _ refl

unfoldable pub total : List ℕ → ℕ
total [] = 0
total (w ∷ ws) = w + total ws

pub sum_words-total :
    (sum : ℕ) (ws : List ℕ) → sum + total ws < 4294967296 → sum_words sum ws ≡ sum + total ws
unfolding sum_words total
sum_words-total sum [] p = omega arith
sum_words-total sum (w ∷ ws) p =
    let small : (sum + w) % 2 ^ 32 ≡ sum + w = omega arith in
    ap (λ s. sum_words s ws) small ∙ sum_words-total (sum + w) ws (omega arith) ∙ omega arith

total-append : (a b : List ℕ) → total (a ++ b) ≡ total a + total b
unfolding total
total-append [] b = omega arith
total-append (w ∷ a) b = omega (arith, total-append a b)

pub total-le : (ws : List ℕ) → All (λ w. w < 65536) ws → total ws ≤ 65535 * length ws
unfolding total
total-le [] h = omega arith
total-le (w ∷ ws) h = let p = h.0 in omega (arith, total-le ws h.1)

fold_carries-same :
    (r w v : ℕ)
    → r + w < 655360
    → r + v < 655360
    → w < 65536
    → v < 65536
    → fold_carries (r + w) ≡ fold_carries (r + v)
    → (w ≡ v) ⊎ ((w ≡ 0) × (v ≡ 65535)) ⊎ ((w ≡ 65535) × (v ≡ 0))
unfolding fold_carries
fold_carries-same r w v p q b c e = ground arith

sum_words-at :
    (a b : List ℕ) (w : ℕ)
    → total (a ++ w ∷ b) < 655360
    → sum_words 0 (a ++ w ∷ b) ≡ total a + total b + w
unfolding total
sum_words-at a b w p =
    let e = total-append a (w ∷ b) in sum_words-total 0 (a ++ w ∷ b) (omega arith) ∙ omega arith

-- Two headers of 16-bit words that differ in one word alone have different checksums, unless that
-- word is 0 in the one and 65535 in the other.
pub checksum_detects :
    (h k : IpHeader) (a b : List ℕ) (w v : ℕ)
    → words h ≡ a ++ w ∷ b
    → words k ≡ a ++ v ∷ b
    → All (λ x. x < 65536) (words h)
    → All (λ x. x < 65536) (words k)
    → w < 65536
    → v < 65536
    → calculate_checksum h ≡ calculate_checksum k
    → (w ≡ v) ⊎ ((w ≡ 0) × (v ≡ 65535)) ⊎ ((w ≡ 65535) × (v ≡ 0))
unfolding calculate_checksum total words
checksum_detects h k a b w v eh ek sh sk sw sv e =
    let lh = total-le (words h) sh in
    let lk = total-le (words k) sk in
    let th = ap total eh in
    let tk = ap total ek in
    let ah = total-append a (w ∷ b) in
    let ak = total-append a (v ∷ b) in
    let ph = ap (sum_words 0) eh ∙ sum_words-at a b w (omega arith) in
    let pk = ap (sum_words 0) ek ∙ sum_words-at a b v (omega arith) in
    fold_carries-same (total a + total b) w v (omega arith) (omega arith) sw sv
      (sym (ap fold_carries ph) ∙ e ∙ ap fold_carries pk)
