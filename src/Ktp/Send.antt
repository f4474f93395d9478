-- ===== src/Ktp/Send.antt =====
-- k_sendto (ksocket.c): a message is framed with its sequence number and slot and queued.
use cn_assignments.Base.{
  ℕ, ◌+◌, ◌-◌, ◌%◌, Bool, true, false, not, ◌||◌, none, some, ℤ, pos, minus_one, pos_part, ltb,
  ◌==◌, if◌then◌else◌, Bytes, ◌∷◌, ◌++◌, length, drop, Outcome, done, fault, ◌>>=◌, update,
  find_from,
}
use cn_assignments.Ktp.Types.{
  message_size, slots, next_seq, SharedMemoryEntry, World, sem_wait, sem_post, bad_descriptor,
  put_entry,
}

-- `seq_message`: `stack` is what its 512 bytes held before.
unfoldable pub frame : ℕ → ℕ → Bytes → Bytes → Bytes
frame seq slot message stack =
    seq % 256 ∷ slot % 256 ∷ (message ++ 0 ∷ drop (length message + 3) stack)

-- The writes of `k_sendto` to the entry, once slot `i` is found free. The sequence number indexes
-- arrays of 256.
unfoldable pub queue_at : SharedMemoryEntry → ℕ → Bytes → Bytes → Outcome SharedMemoryEntry
queue_at e i message stack =
    let seq = e.max_seq_number_yet in
    if ltb seq 256
    then done (record e {
      max_seq_number_yet = next_seq seq;
      swnd = record (e.swnd) {
        index_seq_num = update e.swnd.index_seq_num seq (pos i);
        valid_seq_num = update e.swnd.valid_seq_num seq true;
      };
      sbuff_free = update e.sbuff_free i false;
      send_buffer = update e.send_buffer i (frame seq i message stack);
    })
    else fault

-- `message` is the `length` bytes that the caller hands over.
unfoldable pub k_sendto : Bool → ℕ → Bytes → World → ℤ → Bytes → Outcome (ℤ × World)
unfolding queue_at
k_sendto opened me stack w sockfd message =
    if bad_descriptor sockfd
    then done (minus_one, w)
    else if not opened
    then done (minus_one, w)
    else sem_wait w >>= λ v.
        let fd = pos_part sockfd in
        let e = v.shared fd in
        if e.is_free == 1 || not (e.pid == me)
        then done (minus_one, sem_post v)
        else if ltb (message_size - 3) (length message)
        then done (minus_one, sem_post v)
        else elim (find_from slots 0 e.sbuff_free) [
          | none ↦ done (minus_one, sem_post v)
          | some i ↦ queue_at e i message stack >>= λ e'.
              done (pos (length message), sem_post (put_entry v fd e'))
        ]
