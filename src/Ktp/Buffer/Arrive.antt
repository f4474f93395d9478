-- ===== src/Ktp/Buffer/Arrive.antt =====
-- A data message from the network, on every branch of the code.
use cn_assignments.Base.{
  ℕ, ◌<◌, ◌≡◌, ◌≢◌, ◌∙◌, Bool, true, false, pos, arith, Bytes, List, [], ltb_ℤ, ◌==◌, ◌&&◌, Outcome,
  done, Bool-cases, inl, inr, find_from-some,
}
use cn_assignments.Ktp.Types.{SharedMemoryEntry, Datagram, byte_at, slots}
use cn_assignments.Ktp.Arrivals.{in_order, is_early, handle_data, Sent}
use cn_assignments.Ktp.Buffer.{Holds, ReceiverIsValid}
use cn_assignments.Ktp.Buffer.Accept.{in_order-ReceiverIsValid}
use cn_assignments.Ktp.Buffer.Early.{out_of_order-ReceiverIsValid}

-- the test of the first branch
abbrev pub is_expected : SharedMemoryEntry → ℕ → Bool
is_expected e seq = e.rwnd.start_sequence == seq && ltb_ℤ (pos 0) e.rwnd.size

pub handle_data_expected :
    (e : SharedMemoryEntry) (buffer : Bytes)
    → byte_at buffer 0 ≡ e.rwnd.start_sequence
    → ltb_ℤ (pos 0) e.rwnd.size ≡ true
    → handle_data e buffer ≡ in_order e e.rwnd.start_sequence buffer
unfolding handle_data
handle_data_expected e buffer q h = ground arith

-- what a step sends and leaves, if it ends well
abbrev pub EndsValid : Outcome Sent → Type 0
EndsValid o =
    (e : SharedMemoryEntry) × (sent : List Datagram) × (o ≡ done (e, sent)) × ReceiverIsValid e

-- Whatever data message arrives, the code neither faults nor loops, and keeps the invariant.
pub handle_data-ReceiverIsValid :
    {e : SharedMemoryEntry} (buffer : Bytes)
    → ReceiverIsValid e
    → byte_at buffer 0 < 256
    → EndsValid (handle_data e buffer)
unfolding handle_data
handle_data-ReceiverIsValid {e} buffer v small =
    let seq : ℕ = byte_at buffer 0 in
    elim (Bool-cases (is_expected e seq)) [
      | inl expected ↦
          let q : seq ≡ e.rwnd.start_sequence = ground arith in
          let room : ltb_ℤ (pos 0) e.rwnd.size ≡ true = ground arith in
          let r = in_order-ReceiverIsValid buffer v q room in
          (r.0, _, handle_data_expected e buffer q room ∙ r.3, r.4)
      | inr other ↦ elim (Bool-cases (is_early e seq)) [
        | inl early ↦
            let (e', run, v', _) = out_of_order-ReceiverIsValid seq buffer v small early in
            (e', [], ground arith, v')
        | inr late ↦ (e, [], ground arith, v)
      ]
    ]

-- The expected message is stored even if an unread copy of it, which came early, is in the buffer:
-- afterwards two slots hold the message, and k_recvfrom will hand it over twice.
pub handle_data_duplicates :
    {e : SharedMemoryEntry} (buffer : Bytes) (i : ℕ)
    → ReceiverIsValid e
    → byte_at buffer 0 ≡ e.rwnd.start_sequence
    → ltb_ℤ (pos 0) e.rwnd.size ≡ true
    → Holds e e.rwnd.start_sequence i
    → (e' : SharedMemoryEntry) × (sent : List Datagram) × (j : ℕ) × (handle_data e buffer
        ≡ done (e', sent))
      × (i ≢ j)
      × Holds e' e.rwnd.start_sequence i
      × Holds e' e.rwnd.start_sequence j
handle_data_duplicates {e} buffer i v q room held =
    let r = in_order-ReceiverIsValid buffer v q room in
    let f = find_from-some slots 0 e.rbuff_free r.5 in
    let j : ℕ = r.1 in
    let free : e.rbuff_free j ≡ true = f.is_set in
    let apart : i ≢ j = λ s. let busy : e.rbuff_free j ≡ false = rw s at held.1 in cc in
    (
      r.0,
      _,
      j,
      handle_data_expected e buffer q room ∙ r.3,
      apart,
      (held.0, rw r.7 (ground arith), rw r.6 (ground arith)),
      (omega (arith, f.upper), rw r.7 (ground arith), rw r.6 (ground arith)),
    )
