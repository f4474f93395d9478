-- ===== src/Cldp/OnesComplement.antt =====
-- The checksum as the ones' complement sum that the protocol asks for.
use cn_assignments.Base.{
  ℕ, ◌+◌, ◌-◌, ◌%◌, ◌<◌, ◌≡◌, sym, ap, ◌∙◌, List, [], ◌∷◌, All, arith, ltb, ◌==◌, if◌then◌else◌,
}
use cn_assignments.Cldp.{IpHeader, words, fold_carries, calculate_checksum, with_check}
use cn_assignments.Cldp.Checksum.{total, total-le, sum_words-total}

-- addition of 16-bit words with an end-around carry
abbrev pub add_carry : ℕ → ℕ → ℕ
add_carry a b = if ltb (a + b) 65536 then a + b else a + b - 65535

-- the ones' complement sum of the words, added one after the other to `sum`
abbrev pub ones_sum : ℕ → List ℕ → ℕ
ones_sum sum [] = sum
ones_sum sum (w ∷ ws) = ones_sum (add_carry sum w) ws

-- a number reduced to 16 bits without its carries, which keeps 0 apart
abbrev reduced : ℕ → ℕ
reduced t = if t == 0 then 0 else (t - 1) % 65535 + 1

add_carry-reduced : (t w : ℕ) → w < 65536 → add_carry (reduced t) w ≡ reduced (t + w)
add_carry-reduced t w p = ground arith

fold_carries-reduced : (t : ℕ) → t < 655360 → fold_carries t ≡ 65535 - reduced t
unfolding fold_carries
fold_carries-reduced t p = ground arith

ones_sum-reduced :
    (t : ℕ) (ws : List ℕ)
    → All (λ w. w < 65536) ws
    → ones_sum (reduced t) ws ≡ reduced (t + total ws)
unfolding total
ones_sum-reduced t [] h = ap reduced (omega arith)
ones_sum-reduced t (w ∷ ws) h =
    ap (λ s. ones_sum s ws) (add_carry-reduced t w h.0)
    ∙ ones_sum-reduced (t + w) ws h.1
    ∙ ap reduced (omega arith)

ones_sum-total : (ws : List ℕ) → All (λ w. w < 65536) ws → ones_sum 0 ws ≡ reduced (total ws)
ones_sum-total ws h = ones_sum-reduced 0 ws h ∙ ap reduced (omega arith)

calculate_checksum-reduced :
    (h : IpHeader)
    → All (λ w. w < 65536) (words h)
    → calculate_checksum h ≡ 65535 - reduced (total (words h))
unfolding calculate_checksum words total
calculate_checksum-reduced h s =
    let l = total-le (words h) s in
    ap fold_carries (sum_words-total 0 (words h) (omega arith))
    ∙ fold_carries-reduced (0 + total (words h)) (omega arith)
    ∙ ap (λ t. 65535 - reduced t) (omega arith)

complement-reduced : (t : ℕ) → reduced (t + (65535 - reduced t)) ≡ 65535
complement-reduced t = ground arith

-- the header with a zero in place of the checksum
abbrev pub blank : IpHeader → IpHeader
blank h = record h { check = 0 }

total-with_check :
    (h : IpHeader)
    → total (words (with_check h)) ≡ total (words (blank h)) + calculate_checksum (blank h)
unfolding total words
total-with_check h = omega arith

with_check-words :
    (h : IpHeader)
    → All (λ w. w < 65536) (words (blank h))
    → All (λ w. w < 65536) (words (with_check h))
unfolding words
with_check-words h s =
    let c = calculate_checksum-reduced (blank h) s in
    (s.0, (s.1.0, (s.1.1.0, (s.1.1.1.0, (s.1.1.1.1.0, (omega (arith, c), s.1.1.1.1.1.1))))))

-- For a header of 16-bit words, the checksum that is set is the complement of the ones' complement
-- sum of the header with a zero in its place, in which each carry is added at the other end; and the
-- sum of the header with its checksum is 65535, by which any receiver can test it.
pub checksum-ones_sum :
    (h : IpHeader)
    → All (λ w. w < 65536) (words (blank h))
    → ((with_check h).check ≡ 65535 - ones_sum 0 (words (blank h)))
      × (ones_sum 0 (words (with_check h)) ≡ 65535)
checksum-ones_sum h s =
    let c = calculate_checksum-reduced (blank h) s in
    (
      c ∙ ap (λ t. 65535 - t) (sym (ones_sum-total (words (blank h)) s)),
      ones_sum-total (words (with_check h)) (with_check-words h s)
          ∙ ap reduced (total-with_check h ∙ ap (λ t. total (words (blank h)) + t) c)
          ∙ complement-reduced (total (words (blank h))),
    )
