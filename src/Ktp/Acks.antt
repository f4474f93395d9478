-- ===== src/Ktp/Acks.antt =====
-- The ACK branch of thread_R_function (initksocket.c): the sender's window slides.
use cn_assignments.Base.{
  ℕ, zero, suc, ◌%◌, Bool, true, ◌||◌, ℤ, pos, negsuc, minus_one, ltb, ◌==◌, if◌then◌else◌, Bytes,
  ◌∷◌, [], to_byte, Outcome, done, blocked, fault, ◌>>=◌, update,
}
use cn_assignments.Ktp.Types.{SharedMemoryEntry, next_seq, slots, zero_buffer}

-- `ack_buffer`: the number, the room left in the receive buffer, and "ACK#"
unfoldable pub ack_packet : ℕ → ℤ → Bytes
ack_packet seq room = seq % 256 ∷ to_byte room ∷ b'A' ∷ b'C' ∷ b'K' ∷ b'#' ∷ []

-- Slot `s` and sequence number `j` are given back. `s` comes from a `signed char`: -1 and whatever
-- else lies outside the buffers' ten slots is an access out of bounds.
unfoldable pub release_slot : SharedMemoryEntry → ℕ → ℤ → Outcome SharedMemoryEntry
release_slot e j (negsuc n) = fault
release_slot e j (pos s) =
    if ltb s slots
    then done (record e {
      swnd = record (e.swnd) {
        valid_seq_num = update e.swnd.valid_seq_num j (Bool.false);
        index_seq_num = update e.swnd.index_seq_num j minus_one;
      };
      send_buffer = update e.send_buffer s zero_buffer;
      send_time = update e.send_time s minus_one;
      sbuff_free = update e.sbuff_free s true;
    })
    else fault

-- One round of the loop: the number `j` indexes arrays of 256.
unfoldable pub release_seq : SharedMemoryEntry → ℕ → Outcome SharedMemoryEntry
unfolding release_slot
release_seq e j = if ltb j 256 then release_slot e j (e.swnd.index_seq_num j) else fault

-- `while (j != stop)` with a bound on the rounds; a loop that goes on past the bound does not come
-- back. At the end the window starts at `j`.
unfoldable pub release_until : ℕ → ℕ → ℕ → SharedMemoryEntry → Outcome SharedMemoryEntry
release_until zero j stop e = blocked
release_until (suc n) j stop e =
    let later = λ (e' : SharedMemoryEntry). release_until n (next_seq j) stop e' in
    if j == stop
    then done (record e { swnd = record (e.swnd) { start_sequence = j } })
    else release_seq e j >>= later

-- `acked > last ? acked : last`
abbrev pub latest : ℕ → ℕ → ℕ
latest acked last = if ltb last acked then acked else last

-- The rounds of the loop are bounded by 256.
unfoldable pub handle_ack : SharedMemoryEntry → ℕ → ℕ → Outcome SharedMemoryEntry
handle_ack e acked room =
    if acked == 0 || ltb 255 acked
    then done e
    else if ltb 10 room
    then done e
    else let last = latest acked e.last_ack_received in
      release_until 256 e.swnd.start_sequence (next_seq last)
        (record e { swnd = record (e.swnd) { size = room }; last_ack_received = last })
