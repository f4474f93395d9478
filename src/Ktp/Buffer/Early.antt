-- ===== src/Ktp/Buffer/Early.antt =====
-- A message past the window's start: it is kept if its place is free, and no ACK is sent.
use cn_assignments.Base.{
  ℕ, zero, suc, ◌+◌, ◌-◌, ◌%◌, ◌<◌, ◌≤◌, ◌≡◌, ◌≢◌, refl, sym, ◌∙◌, Bool, true, false, ℤ, pos,
  negsuc, minus_one, arith, Bytes, leb_ℤ, ◌+ℤ◌, sub_ℕ, rem_ℤ, not, if◌then◌else◌, ◌&&◌, done, [],
  Bool-cases, inl, inr,
}
use cn_assignments.Ktp.Types.{SharedMemoryEntry, next_seq}
use cn_assignments.Ktp.Arrivals.{received_before, early_index, store_early, out_of_order, is_early}
use cn_assignments.Ktp.Window.{seq_at}
use cn_assignments.Ktp.Buffer.{ReceiverIsValid}
use cn_assignments.Ktp.Buffer.Store.{stored, stored-ReceiverIsValid}

-- The loop from the window's start to `seq` ends; with nothing between it finds all received.
received_before-done :
    (fuel d : ℕ) {j seq : ℕ} (valid : ℕ → Bool)
    → 1 ≤ j
    → j ≤ 255
    → seq ≡ seq_at j d
    → d < fuel
    → d < 255
    → (b : Bool) × (received_before fuel j seq valid ≡ done b) × (j ≡ seq → b ≡ true)
unfolding received_before
received_before-done zero d valid l h q f b = absurd (omega arith)
received_before-done (suc fuel) zero {j} valid l h q f b =
    let here : j ≡ _ = sym (q ∙ omega arith) in (true, ground arith, λ e. refl)
received_before-done (suc fuel) (suc d) {j} {seq} valid l h q f b =
    let apart : j ≢ seq = omega arith in
    let (b', run, _) =
      received_before-done fuel d {j = next_seq j} {seq = seq} valid (omega arith) (omega arith)
        (q ∙ omega arith) (omega arith) (omega arith) in
    (if valid j then false else b', ground arith, λ e. absurd (apart e))

-- C's arithmetic on the index of the window's start, which is -1 or a slot.
place_in_range :
    (x : ℤ) (start seq : ℕ)
    → leb_ℤ minus_one x ≡ true
    → 1 ≤ start
    → start ≤ 255
    → 1 ≤ seq
    → seq ≤ 255
    → seq ≢ start
    → (t : ℕ) × (rem_ℤ (x +ℤ rem_ℤ (sub_ℕ (seq + 255) start) 255) 10 ≡ pos t) × (t < 10)
place_in_range (pos i) start seq le l h m n ne =
    ((i + (seq + 255 - start) % 255) % 10, ground arith, omega arith)
place_in_range (negsuc zero) start seq le l h m n ne =
    (((seq + 255 - start) % 255 - 1) % 10, ground arith, omega arith)
place_in_range (negsuc (suc i)) start seq le l h m n ne = absurd (ground arith)

early_index-pos :
    (e : SharedMemoryEntry) (seq : ℕ)
    → ReceiverIsValid e
    → 1 ≤ seq
    → seq ≤ 255
    → seq ≢ e.rwnd.start_sequence
    → (t : ℕ) × (early_index e seq ≡ pos t) × (t < 10)
unfolding early_index
early_index-pos e seq v l h ne =
    place_in_range (e.rwnd.index_seq_num e.rwnd.start_sequence) e.rwnd.start_sequence seq
      (v.index e.rwnd.start_sequence) v.low v.high l h ne

-- the entry after a message has been put at slot `t`, if that is free
abbrev pub kept_at : SharedMemoryEntry → ℕ → ℕ → Bytes → SharedMemoryEntry
kept_at e t seq buffer = if e.rbuff_free t then stored e t seq buffer else e

kept_at-ReceiverIsValid :
    {e : SharedMemoryEntry} (t seq : ℕ) (buffer : Bytes)
    → ReceiverIsValid e
    → t < 10
    → ReceiverIsValid (kept_at e t seq buffer)
kept_at-ReceiverIsValid {e} t seq buffer v h = elim (Bool-cases (e.rbuff_free t)) [
  | inl free ↦ rw free (stored-ReceiverIsValid t seq buffer v h free)
  | inr full ↦ rw full v
]

-- A message that lies past the window's start and within the bound is taken without fault and with
-- no ACK; the invariant holds and the window's start stays where it was.
pub out_of_order-ReceiverIsValid :
    {e : SharedMemoryEntry} (seq : ℕ) (buffer : Bytes)
    → ReceiverIsValid e
    → seq < 256
    → is_early e seq ≡ true
    → (e' : SharedMemoryEntry) × (out_of_order e seq buffer ≡ done (e', []))
      × ReceiverIsValid e'
      × (e'.rwnd.start_sequence ≡ e.rwnd.start_sequence)
unfolding out_of_order is_early store_early
out_of_order-ReceiverIsValid {e} seq buffer v small early =
    let past : e.rwnd.start_sequence ≤ seq = ground (arith, v.low) in
    let (b, run, same) =
      received_before-done 256 (seq - e.rwnd.start_sequence) {seq = seq} e.rwnd.valid_seq_num v.low
        v.high (omega (arith, v.low)) (omega arith) (omega (arith, v.low)) in
    elim (Bool-cases (not b && e.rwnd.valid_seq_num seq)) [
      | inr skip ↦ (e, ground arith, v, refl)
      | inl keep ↦
          let ne : seq ≢ e.rwnd.start_sequence =
            λ q. let t : b ≡ true = same (sym q) in ground arith in
          let (t, place, h) = early_index-pos e seq v (omega (arith, v.low)) (omega arith) ne in
          (
            kept_at e t seq buffer,
            ground arith,
            kept_at-ReceiverIsValid t seq buffer v h,
            ground arith,
          )
    ]
