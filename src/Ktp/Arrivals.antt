-- ===== src/Ktp/Arrivals.antt =====
-- thread_R_function (initksocket.c): arriving datagrams, and the ACK that reports new room.
use cn_assignments.Base.{
  ℕ, zero, suc, ◌+◌, ◌%◌, Bool, true, false, not, ◌&&◌, none, some, ℤ, pos, negsuc, ltb, ◌==◌,
  if◌then◌else◌, Bytes, List, [], ◌∷◌, ◌++◌, sub_ℕ, ◌+ℤ◌, ◌-ℤ◌, ltb_ℤ, leb_ℤ, rem_ℤ, Outcome, done,
  blocked, fault, ◌>>=◌, update, find_from,
}
use cn_assignments.Ktp.Types.{SharedMemoryEntry, Datagram, to_peer, next_seq, byte_at, slots}
use cn_assignments.Ktp.Acks.{ack_packet, handle_ack}

-- what a step of the thread leaves: the entry and the datagrams sent, in order
abbrev pub Sent : Type 0
Sent = SharedMemoryEntry × List Datagram

abbrev pub ack_to_peer : SharedMemoryEntry → ℕ → Datagram
ack_to_peer e seq = to_peer e (ack_packet seq e.rwnd.size)

-- The head of the loop: if the buffer was full and is no longer, the last ACK is sent again.
unfoldable pub report_room : SharedMemoryEntry → Sent
report_room e =
    if e.is_free == 0
    then if e.no_space_flags && ltb_ℤ (pos 0) e.rwnd.size
      then (record e { no_space_flags = false }, ack_to_peer e e.last_ack_received ∷ [])
      else (e, [])
    else (e, [])

abbrev pub holds_seq : SharedMemoryEntry → ℕ → ℕ → Bool
holds_seq e seq j = byte_at (e.recv_buffer j) 0 == seq

-- The message is copied to slot `j`.
abbrev pub store_at : SharedMemoryEntry → ℕ → ℕ → Bytes → SharedMemoryEntry
store_at e j seq buffer = record e {
  recv_buffer = update e.recv_buffer j buffer;
  rwnd = record (e.rwnd) { index_seq_num = update e.rwnd.index_seq_num seq (pos j) };
  rbuff_free = update e.rbuff_free j false;
}

-- the first free slot, if there is one
abbrev pub store_first : SharedMemoryEntry → ℕ → Bytes → SharedMemoryEntry
store_first e seq buffer = elim (find_from slots 0 e.rbuff_free) [
  | none ↦ e
  | some j ↦ store_at e j seq buffer
]

-- `size--`, and the flag when nothing is left
abbrev pub take_room : SharedMemoryEntry → SharedMemoryEntry
take_room e =
    let size = e.rwnd.size -ℤ pos 1 in
    record e {
      rwnd = record (e.rwnd) { size = size };
      no_space_flags = if leb_ℤ size (pos 0) && leb_ℤ (pos 0) size then true else e.no_space_flags;
    }

-- `while (valid[start] == 0) start = 1 + start % 255`: with all 256 numbers received it would not
-- come back.
unfoldable pub advance : ℕ → ℕ → (ℕ → Bool) → Outcome ℕ
advance zero start valid = blocked
advance (suc n) start valid =
    let later = advance n (next_seq start) valid in if valid start then done start else later

abbrev pub mark_received : SharedMemoryEntry → ℕ → SharedMemoryEntry
mark_received e seq = record e {
  rwnd = record (e.rwnd) { valid_seq_num = update e.rwnd.valid_seq_num seq false };
}

abbrev pub start_at : SharedMemoryEntry → ℕ → SharedMemoryEntry
start_at e s = record e { rwnd = record (e.rwnd) { start_sequence = s } }

-- The entry after an expected message has been stored and counted, before the window moves.
unfoldable pub accept : SharedMemoryEntry → ℕ → Bytes → SharedMemoryEntry
accept e seq buffer = take_room (store_first (record e { last_ack_received = seq }) seq buffer)

-- the ACK for a message whose number already stands in a receive buffer
abbrev pub repeat_ack : SharedMemoryEntry → ℕ → List Datagram
repeat_ack e seq = elim (find_from slots 0 (holds_seq e seq)) [
  | none ↦ []
  | some j ↦ ack_to_peer e seq ∷ []
]

unfoldable pub in_order : SharedMemoryEntry → ℕ → Bytes → Outcome Sent
in_order e seq buffer =
    if seq == 0
    then done (e, [])
    else let a = accept e seq buffer in
      let m = mark_received a seq in
      advance 256 m.rwnd.start_sequence m.rwnd.valid_seq_num >>= λ s.
      done (start_at m s, repeat_ack e seq ++ ack_to_peer a seq ∷ [])

-- the loop from the window's start to `seq`: has everything before `seq` been received?
unfoldable pub received_before : ℕ → ℕ → ℕ → (ℕ → Bool) → Outcome Bool
received_before zero j seq valid = blocked
received_before (suc n) j seq valid =
    let later = received_before n (next_seq j) seq valid in
    if j == seq then done true else if valid j then done false else later

-- `(start_sequence_index + diff) % 10`, in C's arithmetic
unfoldable pub early_index : SharedMemoryEntry → ℕ → ℤ
early_index e seq =
    let start = e.rwnd.start_sequence in
    rem_ℤ (e.rwnd.index_seq_num start +ℤ rem_ℤ (sub_ℕ (seq + 255) start) 255) 10

unfoldable pub store_early : SharedMemoryEntry → ℕ → Bytes → ℤ → Outcome Sent
store_early e seq buffer (negsuc n) = fault
store_early e seq buffer (pos j) =
    if not (e.rbuff_free j) then done (e, []) else done (take_room (store_at e j seq buffer), [])

unfoldable pub out_of_order : SharedMemoryEntry → ℕ → Bytes → Outcome Sent
out_of_order e seq buffer =
    received_before 256 e.rwnd.start_sequence seq e.rwnd.valid_seq_num >>= λ all_back.
    if not all_back && e.rwnd.valid_seq_num seq
    then store_early e seq buffer (early_index e seq)
    else done (e, [])

-- the test for a message past the window's start
unfoldable pub is_early : SharedMemoryEntry → ℕ → Bool
is_early e seq =
    let start = e.rwnd.start_sequence in
    ltb start (seq % 255 + 1)
    && leb_ℤ (pos seq) (rem_ℤ (pos (start + 9) -ℤ e.rwnd.size) 255 +ℤ pos 1)

-- A data message; its number is a byte. What is neither expected nor early is dropped.
unfoldable pub handle_data : SharedMemoryEntry → Bytes → Outcome Sent
handle_data e buffer =
    let seq = byte_at buffer 0 in
    if e.rwnd.start_sequence == seq && ltb_ℤ (pos 0) e.rwnd.size
    then in_order e seq buffer
    else if is_early e seq
    then out_of_order e seq buffer
    else done (e, [])

-- What `recvfrom` gave for one socket: its result, the 512 bytes of `buffer` after it, and whether
-- `dropMessage` loses the message.
pub record Arrival : Type 0 where
  pub bytes_received : ℤ
  pub buffer : Bytes
  pub dropped : Bool

abbrev pub is_ack : Arrival → Bool
is_ack a =
    (leb_ℤ a.bytes_received (pos 6) && leb_ℤ (pos 6) a.bytes_received)
    && byte_at a.buffer 2 == b'A'
    && byte_at a.buffer 3 == b'C'
    && byte_at a.buffer 4 == b'K'

unfoldable pub receive : SharedMemoryEntry → Arrival → Outcome Sent
unfolding handle_ack handle_data
receive e a =
    if not (ltb_ℤ (pos 0) a.bytes_received)
    then done (e, [])
    else if is_ack a
    then if byte_at a.buffer 5 == b'#'
      then handle_ack e (byte_at a.buffer 0) (byte_at a.buffer 1) >>= (λ e'. done (e', []))
      else done (e, [])
    else if not a.dropped
    then handle_data e a.buffer
    else done (e, [])
