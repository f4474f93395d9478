-- ===== src/Ktp/Window/Ack.antt =====
-- The ACK branch as a whole: what an ACK gives back, and the ACKs that go wrong.
use cn_assignments.Base.{
  ℕ, suc, ◌+◌, ◌-◌, ◌<◌, ◌≤◌, ◌≡◌, refl, ◌∙◌, arith, List, [], ◌∷◌, Outcome, done, fault, ◌>>=◌,
  ◌==◌, ◌||◌, ltb, if◌then◌else◌,
}
use cn_assignments.Ktp.Types.{SharedMemoryEntry, next_seq}
use cn_assignments.Ktp.Acks.{release_until, handle_ack}
use cn_assignments.Ktp.Window.{seq_at, IsWindow, SenderIsValid}
use cn_assignments.Ktp.Window.Release.{restart, release_until-from, release_until-fault}

-- the entry as the loop finds it
abbrev pub informed : SharedMemoryEntry → ℕ → ℕ → SharedMemoryEntry
informed e last room = record e { swnd = record (e.swnd) { size = room }; last_ack_received = last }

-- The window does not depend on the fields that the branch sets besides.
pub informed-IsWindow :
    {e : SharedMemoryEntry} {s n : ℕ} (last room : ℕ)
    → IsWindow e s n
    → IsWindow (informed e last room) s n
informed-IsWindow last room w = record {
  low = w.low;
  high = w.high;
  upcoming = w.upcoming;
  used = w.used;
  slot = w.slot;
  distinct = w.distinct;
  empty = w.empty;
}

restart-SenderIsValid :
    {e : SharedMemoryEntry} {s n : ℕ} → IsWindow e s n → SenderIsValid (restart e s) n
restart-SenderIsValid w = record {
  low = w.low;
  high = w.high;
  upcoming = w.upcoming;
  used = w.used;
  slot = w.slot;
  distinct = w.distinct;
  empty = w.empty;
}

-- an acceptable ACK with a number greater than the last one
pub handle_ack_fresh :
    (e : SharedMemoryEntry) (acked room : ℕ)
    → acked ≤ 255
    → room ≤ 10
    → e.last_ack_received < acked
    → handle_ack e acked room
      ≡ release_until 256 e.swnd.start_sequence (next_seq acked) (informed e acked room)
unfolding handle_ack
handle_ack_fresh e acked room l r h = ground arith

-- An ACK for message `k` of the window, whose number is greater than any acknowledged before, ends
-- without fault: messages 0 to `k` are given back, the window starts at the number after, and the
-- peer's room and the number are noted. The receiver's side is not touched.
pub handle_ack-SenderIsValid :
    {e : SharedMemoryEntry} {n : ℕ} (k room : ℕ)
    → SenderIsValid e n
    → k < n
    → room ≤ 10
    → e.last_ack_received < seq_at e.swnd.start_sequence k
    → let acked = seq_at e.swnd.start_sequence k in
      (e' : SharedMemoryEntry) × (handle_ack e acked room ≡ done e')
      × SenderIsValid e' (n - (k + 1))
      × (e'.swnd.start_sequence ≡ next_seq acked)
      × (e'.swnd.size ≡ room)
      × (e'.last_ack_received ≡ acked)
      × (e'.rwnd ≡ e.rwnd)
handle_ack-SenderIsValid {e} {n} k room w h r fresh =
    let acked : ℕ = seq_at e.swnd.start_sequence k in
    let small : n ≤ 10 = omega (arith, w.used) in
    let (e', loop, w', kept) =
      release_until-from 256 (suc k) (n - (k + 1)) (informed-IsWindow acked room w) (omega arith)
        (omega (arith, w.low, w.high)) (omega arith) (omega arith) in
    (
      restart e' (next_seq acked),
      handle_ack_fresh e acked room (omega arith) r fresh ∙ loop,
      restart-SenderIsValid w',
      refl,
      kept.size,
      kept.last,
      kept.receiver,
    )

-- An ACK for a number beyond what was sent, and greater than any acknowledged before, runs the loop
-- into slot -1: it writes out of bounds.
pub handle_ack-fault :
    {e : SharedMemoryEntry} {n : ℕ} (k room : ℕ)
    → SenderIsValid e n
    → n ≤ k
    → k < 254
    → room ≤ 10
    → e.last_ack_received < seq_at e.swnd.start_sequence k
    → handle_ack e (seq_at e.swnd.start_sequence k) room ≡ fault
handle_ack-fault {e} {n} k room w h l r fresh =
    let acked : ℕ = seq_at e.swnd.start_sequence k in
    let small : n ≤ 10 = omega (arith, w.used) in
    handle_ack_fresh e acked room (omega arith) r fresh
    ∙ release_until-fault 256 n (suc k) (informed-IsWindow acked room w)
        (omega (arith, w.low, w.high)) (omega arith) (omega arith) (omega arith)

-- A repeated ACK, for no greater number than the last one, changes only the peer's room.
pub handle_ack_repeated :
    (e : SharedMemoryEntry) (acked room : ℕ)
    → 1 ≤ acked
    → acked ≤ e.last_ack_received
    → e.last_ack_received ≤ 255
    → room ≤ 10
    → e.swnd.start_sequence ≡ next_seq e.last_ack_received
    → handle_ack e acked room ≡ done (informed e e.last_ack_received room)
unfolding handle_ack release_until
handle_ack_repeated e acked room l h m r s = ground arith

-- the ACKs that arrive one after the other
abbrev pub handle_acks : SharedMemoryEntry → List (ℕ × ℕ) → Outcome SharedMemoryEntry
handle_acks e [] = done e
handle_acks e ((acked, room) ∷ rest) =
    let later = λ (e' : SharedMemoryEntry). handle_acks e' rest in handle_ack e acked room >>= later

-- what an ACK leaves once 255 is the last number acknowledged
abbrev pub ignored : SharedMemoryEntry → ℕ → ℕ → SharedMemoryEntry
ignored e acked room =
    if acked == 0 || ltb 255 acked || ltb 10 room then e else informed e e.last_ack_received room

handle_ack-ignored :
    (e : SharedMemoryEntry) (acked room : ℕ)
    → e.last_ack_received ≡ 255
    → e.swnd.start_sequence ≡ 1
    → handle_ack e acked room ≡ done (ignored e acked room)
unfolding handle_ack release_until
handle_ack-ignored e acked room l s = ground arith

-- Once number 255 has been acknowledged, and the window starts again at 1, no ACK whatever gives a
-- slot back or moves the window, since no number is greater than the last one.
pub handle_acks_after_wrap :
    (acks : List (ℕ × ℕ)) (e : SharedMemoryEntry)
    → e.last_ack_received ≡ 255
    → e.swnd.start_sequence ≡ 1
    → (e' : SharedMemoryEntry) × (handle_acks e acks ≡ done e')
      × (e'.sbuff_free ≡ e.sbuff_free)
      × (e'.swnd.start_sequence ≡ 1)
      × (e'.swnd.index_seq_num ≡ e.swnd.index_seq_num)
handle_acks_after_wrap [] e l s = (e, refl, refl, s, refl)
handle_acks_after_wrap ((acked, room) ∷ rest) e l s =
    let e1 = ignored e acked room in
    let (e', run, free, start, index) =
      handle_acks_after_wrap rest e1 (ground arith) (ground arith) in
    (
      e',
      rw (handle_ack-ignored e acked room l s) run,
      free ∙ ground arith,
      start,
      index ∙ ground arith,
    )

pub informed-SenderIsValid :
    (e : SharedMemoryEntry) (last room : ℕ) {n : ℕ}
    → SenderIsValid e n
    → SenderIsValid (informed e last room) n
informed-SenderIsValid e last room w = informed-IsWindow last room w
