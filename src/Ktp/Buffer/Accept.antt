-- ===== src/Ktp/Buffer/Accept.antt =====
-- An expected message: it is stored, and the window's start moves past all that has been received.
use cn_assignments.Base.{
  ℕ, zero, suc, ◌<◌, ◌≤◌, ◌≡◌, refl, sym, subst, ◌∙◌, Bool, true, false, some, pos, arith, Bytes,
  update, ltb_ℤ, done, find_from, find_from-some, find_from-none, find_from_of_count, Option-cases,
  ℕ_discrete, inl, inr, IsFirst, pigeonhole, ◌++◌, ◌∷◌, [],
}
use cn_assignments.Ktp.Types.{SharedMemoryEntry, byte_at, slots, next_seq}
use cn_assignments.Ktp.Arrivals.{
  advance, accept, mark_received, start_at, in_order, repeat_ack, ack_to_peer,
}
use cn_assignments.Ktp.Window.{seq_at, seq_at-injective}
use cn_assignments.Ktp.Buffer.{Holds, ReceiverIsValid}
use cn_assignments.Ktp.Buffer.Store.{stored, stored-ReceiverIsValid}

-- The loop stops at the first number from `start` on that has not been received.
pub advance-seq_at :
    (fuel k : ℕ) {start : ℕ} (valid : ℕ → Bool)
    → 1 ≤ start
    → start ≤ 255
    → k < fuel
    → k < 255
    → ((i : ℕ) → i < k → valid (seq_at start i) ≡ false)
    → valid (seq_at start k) ≡ true
    → advance fuel start valid ≡ done (seq_at start k)
unfolding advance
advance-seq_at zero k valid l h f b before here = absurd (omega arith)
advance-seq_at (suc fuel) zero {start} valid l h f b before here =
    let e : seq_at start 0 ≡ start = omega arith in ground arith
advance-seq_at (suc fuel) (suc k) {start} valid l h f b before here =
    let e : seq_at start 0 ≡ start = omega arith in
    let shift : (i : ℕ) → seq_at (next_seq start) i ≡ seq_at start (suc i) = λ i. omega arith in
    let first : valid start ≡ false = rw e at (before 0 (omega arith)) in
    ground (
      arith,
      shift k,
      advance-seq_at fuel k {start = next_seq start} valid (omega arith) (omega arith) (omega arith)
          (omega arith) (λ i p. rw (shift i) (before (suc i) (omega arith))) (rw (shift k) here),
    )

-- Ten slots cannot hold eleven messages, so one of eleven numbers has not been received.
pub missing-IsFirst :
    (e : SharedMemoryEntry) (start : ℕ)
    → ((s : ℕ) → e.rwnd.valid_seq_num s ≡ false → (i : ℕ) × Holds e s i)
    → (k : ℕ) × IsFirst 11 0 (λ i. e.rwnd.valid_seq_num (seq_at start i)) k
missing-IsFirst e start buffered =
    elim (Option-cases (find_from 11 0 (λ i. e.rwnd.valid_seq_num (seq_at start i)))) [
      | inl full ↦ absurd (
          pigeonhole 10 (λ k i. Holds e (seq_at start k) i)
            (λ k h.
              let (i, held) =
                buffered (seq_at start k)
                  (find_from-none 11 0 _ full k (omega arith) (omega arith)) in
              (i, held.0, held))
            (λ j k i hj hk p q.
              seq_at-injective start j k (omega arith) (omega arith) (sym p.2 ∙ q.2)))
      | inr (k, found) ↦ (k, find_from-some 11 0 _ found)
    ]

-- What a step of the receiver does to its buffer and its window when it succeeds.
accept-stored :
    {e : SharedMemoryEntry} (seq : ℕ) (buffer : Bytes)
    → ReceiverIsValid e
    → ltb_ℤ (pos 0) e.rwnd.size ≡ true
    → (j : ℕ) × (find_from slots 0 e.rbuff_free ≡ some j)
      × IsFirst slots 0 e.rbuff_free j
      × (accept e seq buffer ≡ stored (record e { last_ack_received = seq }) j seq buffer)
unfolding accept
accept-stored {e} seq buffer v h =
    let (j, found) = find_from_of_count slots e.rbuff_free (ground (arith, v.room)) in
    (j, found, find_from-some slots 0 e.rbuff_free found, ground arith)

mark_received-ReceiverIsValid :
    {e : SharedMemoryEntry} (seq i : ℕ)
    → ReceiverIsValid e
    → Holds e seq i
    → ReceiverIsValid (mark_received e seq)
mark_received-ReceiverIsValid {e} seq i v held = record {
  low = v.low;
  high = v.high;
  room = v.room;
  buffered = λ s q. elim (ℕ_discrete seq s) [
    | yes same ↦ (i, subst (λ t. Holds e t i) same held)
    | no other ↦ v.buffered s (ground arith)
  ];
  index = v.index;
}

start_at-ReceiverIsValid :
    {e : SharedMemoryEntry} (s : ℕ)
    → 1 ≤ s
    → s ≤ 255
    → ReceiverIsValid e
    → ReceiverIsValid (start_at e s)
start_at-ReceiverIsValid s l h v = record {
  low = l;
  high = h;
  room = v.room;
  buffered = v.buffered;
  index = v.index;
}

relabel-ReceiverIsValid :
    {e : SharedMemoryEntry} (seq : ℕ)
    → ReceiverIsValid e
    → ReceiverIsValid (record e { last_ack_received = seq })
relabel-ReceiverIsValid seq v = record {
  low = v.low;
  high = v.high;
  room = v.room;
  buffered = v.buffered;
  index = v.index;
}

in_order-run :
    (e a : SharedMemoryEntry) (seq s : ℕ) (buffer : Bytes)
    → 1 ≤ seq
    → accept e seq buffer ≡ a
    → advance 256 a.rwnd.start_sequence (mark_received a seq).rwnd.valid_seq_num ≡ done s
    → in_order e seq buffer
      ≡ done (start_at (mark_received a seq) s, repeat_ack e seq ++ ack_to_peer a seq ∷ [])
unfolding in_order
in_order-run e a seq s buffer l acc adv = ground arith

-- The expected message, with room for it, is taken without fault: it lies in the first free slot,
-- its number is the last acknowledged, the window starts at the first number from the old start on
-- that has not been received, the invariant holds, and the last datagram sent is the ACK of this
-- number with the room that is left.
pub in_order-ReceiverIsValid :
    {e : SharedMemoryEntry} (buffer : Bytes)
    → ReceiverIsValid e
    → byte_at buffer 0 ≡ e.rwnd.start_sequence
    → ltb_ℤ (pos 0) e.rwnd.size ≡ true
    → let seq = e.rwnd.start_sequence in
      (e' : SharedMemoryEntry) × (j : ℕ) × (k : ℕ) × (in_order e seq buffer
        ≡ done (e', repeat_ack e seq ++ ack_to_peer e' seq ∷ []))
      × ReceiverIsValid e'
      × (find_from slots 0 e.rbuff_free ≡ some j)
      × (e'.recv_buffer ≡ update e.recv_buffer j buffer)
      × (e'.rbuff_free ≡ update e.rbuff_free j false)
      × (e'.last_ack_received ≡ seq)
      × (e'.is_free ≡ e.is_free)
      × (e'.pid ≡ e.pid)
      × (e'.rwnd.valid_seq_num ≡ update e.rwnd.valid_seq_num seq false)
      × (e'.rwnd.start_sequence ≡ seq_at seq k)
      × IsFirst 11 0 (λ i. e'.rwnd.valid_seq_num (seq_at seq i)) k
in_order-ReceiverIsValid {e} buffer v head room =
    let seq : ℕ = e.rwnd.start_sequence in
    let (j, found, r, acc) = accept-stored seq buffer v room in
    let a : SharedMemoryEntry = stored (record e { last_ack_received = seq }) j seq buffer in
    let va : ReceiverIsValid a =
      stored-ReceiverIsValid j seq buffer (relabel-ReceiverIsValid seq v) (omega (arith, r.upper))
        r.is_set in
    let m : SharedMemoryEntry = mark_received a seq in
    let vm : ReceiverIsValid m = mark_received-ReceiverIsValid seq j va (ground (arith, r.upper)) in
    let (k, first) = missing-IsFirst m seq vm.buffered in
    (
      start_at m (seq_at seq k),
      j,
      k,
      in_order-run e a seq (seq_at seq k) buffer v.low acc (
          advance-seq_at 256 k m.rwnd.valid_seq_num v.low v.high (omega (arith, first.upper))
            (omega (arith, first.upper)) (λ i p. first.before i (omega arith) p) first.is_set),
      start_at-ReceiverIsValid (seq_at seq k) (omega arith) (omega arith) vm,
      found,
      refl,
      refl,
      refl,
      refl,
      refl,
      refl,
      refl,
      first,
    )
