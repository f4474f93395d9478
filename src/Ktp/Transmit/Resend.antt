-- ===== src/Ktp/Transmit/Resend.antt =====
-- The retransmission of thread S: with a full window it resends exactly the window, and with fewer
-- messages queued than the peer has room for it runs out of bounds.
use cn_assignments.Base.{
  ℕ, zero, suc, ◌+◌, ◌<◌, ◌≤◌, ◌≡◌, ◌≢◌, refl, ◌∙◌, ℤ, pos, negsuc, minus_one, pos_part, arith,
  List, [], ◌∷◌, done, fault,
}
use cn_assignments.Ktp.Types.{SharedMemoryEntry, Datagram, to_peer, next_seq}
use cn_assignments.Ktp.Transmit.{transmit, window_stop, resend_slot, retransmit_from, retransmit}
use cn_assignments.Ktp.Window.{seq_at, IsSlot, SenderIsValid, seq_at-next}

-- the slot of number `k`, where it has one
abbrev pub slot_at : SharedMemoryEntry → ℕ → ℕ
slot_at e k = pos_part (e.swnd.index_seq_num k)

-- the frames of the `m` messages from number `k` on, in order
unfoldable pub window_frames : ℕ → ℕ → SharedMemoryEntry → List Datagram
window_frames zero k e = []
window_frames (suc m) k e = to_peer e (e.send_buffer (slot_at e k)) ∷ window_frames m (next_seq k) e

-- the entry after their slots have been stamped with the time
pub stamp_window : ℕ → ℕ → ℕ → SharedMemoryEntry → SharedMemoryEntry
stamp_window zero k now e = e
stamp_window (suc m) k now e = stamp_window m (next_seq k) now (transmit now e (slot_at e k))

window_frames-transmit :
    (m k now s : ℕ) (e : SharedMemoryEntry)
    → window_frames m k (transmit now e s) ≡ window_frames m k e
unfolding window_frames
window_frames-transmit zero k now s e = refl
window_frames-transmit (suc m) k now s e = rw (window_frames-transmit m (next_seq k) now s e)

resend_slot-IsSlot :
    (now : ℕ) (e : SharedMemoryEntry) (seq : ℕ) (x : ℤ)
    → IsSlot e seq x
    → resend_slot now e x
      ≡ done (transmit now e (pos_part x), to_peer e (e.send_buffer (pos_part x)))
unfolding resend_slot
resend_slot-IsSlot now e seq (negsuc n) p = absurd p
resend_slot-IsSlot now e seq (pos s) p = ground arith

-- `m` messages from number `k` on lie in slots
abbrev Queued : SharedMemoryEntry → ℕ → ℕ → Type 0
Queued e k m = (i : ℕ) → i < m → IsSlot e (seq_at k i) (e.swnd.index_seq_num (seq_at k i))

Queued-next :
    (e : SharedMemoryEntry) (k m : ℕ)
    → 1 ≤ k
    → k ≤ 255
    → Queued e k (suc m)
    → IsSlot e k (e.swnd.index_seq_num k) × Queued e (next_seq k) m
Queued-next e k m l h q =
    let first : seq_at k 0 ≡ k = omega arith in
    (rw first at (q 0 (omega arith)), λ i p. rw (seq_at-next k i l h) (q (i + 1) (omega arith)))

retransmit_from-frames :
    (m k stop now : ℕ) (e : SharedMemoryEntry)
    → 1 ≤ k
    → k ≤ 255
    → m < 254
    → stop ≡ seq_at k (m + 1)
    → Queued e k m
    → retransmit_from m k stop now e ≡ done (stamp_window m k now e, window_frames m k e)
unfolding retransmit_from window_frames stamp_window
retransmit_from-frames zero k stop now e l h b q w = refl
retransmit_from-frames (suc m) k stop now e l h b q w =
    let (here, rest) = Queued-next e k m l h w in
    let apart : k ≢ stop = omega arith in
    let e1 = transmit now e (slot_at e k) in
    ground (
      arith,
      resend_slot-IsSlot now e k (e.swnd.index_seq_num k) here,
      retransmit_from-frames m (next_seq k) stop now e1 (omega arith) (omega arith) (omega arith)
          (q ∙ omega arith) rest,
      window_frames-transmit m (next_seq k) now (slot_at e k) e,
    )

-- The loop that is to go past the queued messages accesses slot -1.
retransmit_from-fault :
    (m n k stop now : ℕ) (e : SharedMemoryEntry)
    → 1 ≤ k
    → k ≤ 255
    → m < 254
    → n < m
    → stop ≡ seq_at k (m + 1)
    → Queued e k n
    → e.swnd.index_seq_num (seq_at k n) ≡ minus_one
    → retransmit_from m k stop now e ≡ fault
unfolding retransmit_from
retransmit_from-fault zero n k stop now e l h b f q w x = absurd (omega arith)
retransmit_from-fault (suc m) zero k stop now e l h b f q w x =
    let first : seq_at k 0 ≡ k = omega arith in
    let apart : k ≢ stop = omega arith in
    let gone : e.swnd.index_seq_num k ≡ minus_one = rw first at x in
    unfold resend_slot in ground arith
retransmit_from-fault (suc m) (suc n) k stop now e l h b f q w x =
    let (here, rest) = Queued-next e k n l h w in
    let apart : k ≢ stop = omega arith in
    let e1 = transmit now e (slot_at e k) in
    let shift : seq_at k (suc n) ≡ seq_at (next_seq k) n = omega arith in
    ground (
      arith,
      resend_slot-IsSlot now e k (e.swnd.index_seq_num k) here,
      retransmit_from-fault m n (next_seq k) stop now e1 (omega arith) (omega arith) (omega arith)
          (omega arith) (q ∙ omega arith) rest (rw shift at x),
    )

-- When the peer has room for no more messages than are queued, a retransmission resends, in order,
-- exactly as many as there is room for, from the window's start, and stamps their slots.
pub retransmit_lem :
    {e : SharedMemoryEntry} {n : ℕ} (now : ℕ)
    → SenderIsValid e n
    → e.swnd.size ≤ n
    → retransmit now e
      ≡ done (
        stamp_window e.swnd.size e.swnd.start_sequence now e,
        window_frames e.swnd.size e.swnd.start_sequence e,
      )
unfolding retransmit
retransmit_lem {e} {n} now w h =
    let small : n ≤ 10 = omega (arith, w.used) in
    retransmit_from-frames e.swnd.size e.swnd.start_sequence (window_stop e) now e w.low w.high
      (omega arith) (omega (arith, w.low)) (λ i p. w.slot i (omega arith))

-- When the peer has room for more messages than are queued, a retransmission does not stop at the
-- last queued message: it reads and writes slot -1.
pub retransmit-fault :
    {e : SharedMemoryEntry} {n : ℕ} (now : ℕ)
    → SenderIsValid e n
    → n < e.swnd.size
    → e.swnd.size ≤ 10
    → retransmit now e ≡ fault
unfolding retransmit
retransmit-fault {e} {n} now w h l =
    retransmit_from-fault e.swnd.size n e.swnd.start_sequence (window_stop e) now e w.low w.high
      (omega arith) h (omega (arith, w.low)) (λ i p. w.slot i (omega arith))
      (w.empty n (omega arith) (omega arith))
