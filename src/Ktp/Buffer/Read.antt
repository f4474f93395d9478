-- ===== src/Ktp/Buffer/Read.antt =====
-- k_recvfrom: which message is handed over, and what the hand-over leaves.
use cn_assignments.Base.{
  ℕ, zero, suc, ◌+◌, ◌<◌, ◌≤◌, ◌≡◌, refl, sym, subst, true, false, pos, minus_one, arith, ltb,
  Bool-cases, inl, inr, dec_lt,
}
use cn_assignments.Ktp.Types.{SharedMemoryEntry, byte_at, slots}
use cn_assignments.Ktp.Receive.{Best, none_yet, scan_slot, scan}

-- What the search knows after the slots below `i`: nothing was found and all are free, or the best
-- slot holds a message with the least number.
pub data Searched (e : SharedMemoryEntry) (i : ℕ) (b : Best) : Type 0 where
  empty :
      b.index ≡ minus_one
      → b.min_seq_num ≡ 257
      → ((j : ℕ) → j < i → e.rbuff_free j ≡ true)
      → Searched e i b
  least :
      (k : ℕ)
      → k < i
      → b.index ≡ pos k
      → e.rbuff_free k ≡ false
      → byte_at (e.recv_buffer k) 0 ≡ b.min_seq_num
      → ((j : ℕ) → j < i → e.rbuff_free j ≡ false → b.min_seq_num ≤ byte_at (e.recv_buffer j) 0)
      → Searched e i b

-- A statement about the slots below `i + 1` from those below `i` and slot `i`.
below-suc : (P : ℕ → Type 0) (i : ℕ) → ((j : ℕ) → j < i → P j) → P i → (j : ℕ) → j < i + 1 → P j
below-suc P i h p j q = elim (dec_lt j i) [
  | yes l ↦ h j l
  | no l ↦ let e : i ≡ j = omega arith in subst P e p
]

-- the slot that the search takes over
abbrev taken : SharedMemoryEntry → ℕ → Best
taken e i = record { index = pos i; min_seq_num = byte_at (e.recv_buffer i) 0 }

-- `P j` for the occupied slots `j` below `i + 1`
busy-suc :
    (e : SharedMemoryEntry) (P : ℕ → Type 0) (i : ℕ)
    → ((j : ℕ) → j < i → e.rbuff_free j ≡ false → P j)
    → (e.rbuff_free i ≡ false → P i)
    → (j : ℕ) → j < i + 1
    → e.rbuff_free j ≡ false
    → P j
busy-suc e P i h p = below-suc (λ j. e.rbuff_free j ≡ false → P j) i h p

scan_slot-Searched :
    (e : SharedMemoryEntry) (i : ℕ) (b : Best)
    → Searched e i b
    → Searched e (i + 1) (scan_slot e i b)
unfolding scan_slot
scan_slot-Searched e i b (empty x m all) = elim (Bool-cases (e.rbuff_free i)) [
  | inl free ↦
      let r : scan_slot e i b ≡ b = ground arith in
      subst (Searched e (i + 1)) (sym r) (empty x m (below-suc _ i all free))
  | inr busy ↦
      let r : scan_slot e i b ≡ taken e i = ground arith in
      subst (Searched e (i + 1)) (sym r) (
        least i (omega arith) refl busy refl
          (busy-suc e _ i (λ j l q. let f = all j l in absurd (cc)) (λ q. omega arith)))
]
scan_slot-Searched e i b (least k l x f m all) = elim (Bool-cases (e.rbuff_free i)) [
  | inl free ↦
      let r : scan_slot e i b ≡ b = ground arith in
      subst (Searched e (i + 1)) (sym r)
        (least k (omega arith) x f m (busy-suc e _ i all (λ q. absurd (cc))))
  | inr busy ↦ elim (Bool-cases (ltb (byte_at (e.recv_buffer i) 0) b.min_seq_num)) [
    | inl less ↦
        let r : scan_slot e i b ≡ taken e i = ground arith in
        subst (Searched e (i + 1)) (sym r) (
          least i (omega arith) refl busy refl
            (busy-suc e _ i (λ j h q. ground (arith, all j h q)) (λ q. omega arith)))
    | inr more ↦
        let r : scan_slot e i b ≡ b = ground arith in
        subst (Searched e (i + 1)) (sym r)
          (least k (omega arith) x f m (busy-suc e _ i all (λ q. ground arith)))
  ]
]

scan-Searched :
    (n i j : ℕ) (e : SharedMemoryEntry) (b : Best)
    → i + n ≡ j
    → Searched e i b
    → Searched e j (scan n i e b)
unfolding scan
scan-Searched zero i j e b q s =
    let same : i ≡ j = omega arith in subst (λ t. Searched e t b) same s
scan-Searched (suc n) i j e b q s =
    scan-Searched n (i + 1) j e (scan_slot e i b) (omega arith) (scan_slot-Searched e i b s)

pub search-Searched : (e : SharedMemoryEntry) → Searched e slots (scan slots 0 e none_yet)
search-Searched e =
    scan-Searched slots 0 slots e none_yet refl (empty refl refl (λ j h. absurd (omega arith)))
