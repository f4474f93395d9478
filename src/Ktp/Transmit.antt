-- ===== src/Ktp/Transmit.antt =====
-- thread_S_function (initksocket.c): first transmissions and retransmissions.
pub mod Resend
pub mod Fresh
pub mod Stamps
use cn_assignments.Base.{
  ℕ, zero, suc, ◌+◌, ◌-◌, ◌%◌, Bool, true, false, not, ◌&&◌, Option, none, some, ℤ, pos, negsuc,
  minus_one, ltb, ◌==◌, if◌then◌else◌, Bytes, List, [], ◌∷◌, ◌-ℤ◌, ltb_ℤ, leb_ℤ, Outcome, done,
  blocked, fault, ◌>>=◌, update, find_from,
}
use cn_assignments.Ktp.Types.{
  timeout, slots, SharedMemoryEntry, Datagram, to_peer, next_seq, max_ktp_sockets,
}
use cn_assignments.Ktp.Arrivals.{Sent}

-- `send_time[j] == -1`; a time is never negative otherwise
abbrev pub unsent : SharedMemoryEntry → ℕ → Bool
unsent e s = leb_ℤ (e.send_time s) minus_one && leb_ℤ minus_one (e.send_time s)

abbrev pub timed_out : ℕ → SharedMemoryEntry → ℕ → Bool
timed_out now e s = leb_ℤ (pos timeout) (pos now -ℤ e.send_time s) && not (unsent e s)

-- The time is noted and the slot's 512 bytes go out.
abbrev pub transmit : ℕ → SharedMemoryEntry → ℕ → SharedMemoryEntry
transmit now e s = record e { send_time = update e.send_time s (pos now) }

-- the number at which both loops stop
abbrev pub window_stop : SharedMemoryEntry → ℕ
window_stop e = next_seq (e.swnd.start_sequence + e.swnd.size)

abbrev pub prepend : Datagram → Sent → Outcome Sent
prepend d s = done (s.0, d ∷ s.1)

-- One message of the retransmission, whose slot comes from a `signed char`: -1 is out of bounds.
unfoldable pub resend_slot : ℕ → SharedMemoryEntry → ℤ → Outcome (SharedMemoryEntry × Datagram)
resend_slot now e (negsuc n) = fault
resend_slot now e (pos s) =
    if ltb s slots then done (transmit now e s, to_peer e (e.send_buffer s)) else fault

-- The retransmission loop from `k`; `n` is `swnd.size - cnt`, and each round counts.
unfoldable pub retransmit_from : ℕ → ℕ → ℕ → ℕ → SharedMemoryEntry → Outcome Sent
retransmit_from zero k stop now e = done (e, [])
retransmit_from (suc n) k stop now e =
    let later = λ (e' : SharedMemoryEntry). retransmit_from n (next_seq k) stop now e' in
    if k == stop
    then done (e, [])
    else if not (ltb k 256)
    then fault
    else resend_slot now e (e.swnd.index_seq_num k) >>= λ r. later r.0 >>= prepend r.1

unfoldable pub retransmit : ℕ → SharedMemoryEntry → Outcome Sent
retransmit now e = retransmit_from e.swnd.size e.swnd.start_sequence (window_stop e) now e

-- One message of the first transmission: `none` if its number has no slot or it is sent already.
unfoldable pub fresh_slot : SharedMemoryEntry → ℤ → Outcome (Option ℕ)
fresh_slot e (negsuc n) = done none
fresh_slot e (pos s) = if ltb s slots then done (if unsent e s then some s else none) else fault

-- The loop over messages that were never sent, from `k`: `left` is `swnd.size - cnt`, and only a
-- message that goes out counts. The rounds are bounded by the first argument.
unfoldable pub send_from : ℕ → ℕ → ℕ → ℕ → ℕ → SharedMemoryEntry → Outcome Sent
send_from zero left k stop now e = blocked
send_from (suc n) left k stop now e =
    let skip = send_from n left (next_seq k) stop now e in
    let sent = λ (e' : SharedMemoryEntry). send_from n (left - 1) (next_seq k) stop now e' in
    if k == stop
    then done (e, [])
    else if left == 0
    then done (e, [])
    else if not (ltb k 256)
    then fault
    else fresh_slot e (e.swnd.index_seq_num k) >>= λ o. elim o [
      | none ↦ skip
      | some s ↦ sent (transmit now e s) >>= prepend (to_peer e (e.send_buffer s))
    ]

unfoldable pub send_new : ℕ → SharedMemoryEntry → Outcome Sent
send_new now e = send_from 257 e.swnd.size e.swnd.start_sequence (window_stop e) now e

-- One socket in one pass of the thread. With a window of 0 nothing is sent, timeout or not.
unfoldable pub send_pass : ℕ → SharedMemoryEntry → Outcome Sent
send_pass now e =
    if not (e.is_free == 0)
    then done (e, [])
    else if e.swnd.size == 0
    then done (e, [])
    else elim (find_from slots 0 (timed_out now e)) [
      | some j ↦ retransmit now e
      | none ↦ send_new now e
    ]
