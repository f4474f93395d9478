-- ===== src/Ktp/Receive.antt =====
-- k_recvfrom (ksocket.c): the buffered message with the least sequence number is handed over.
use cn_assignments.Base.{
  ℕ, zero, suc, ◌+◌, Bool, true, not, ◌&&◌, ◌||◌, none, some, ℤ, pos, minus_one, pos_part,
  is_negative, ◌+ℤ◌, ltb_ℤ, ltb, ◌==◌, if◌then◌else◌, Bytes, [], length, take, drop, strlen,
  Outcome, done, fault, ◌>>=◌, update,
}
use cn_assignments.Ktp.Types.{
  slots, SharedMemoryEntry, World, sem_wait, sem_post, bad_descriptor, put_entry, byte_at,
  zero_buffer,
}

-- the locals `index` and `min_seq_num` of the search
pub record Best : Type 0 where
  pub index : ℤ
  pub min_seq_num : ℕ

abbrev pub none_yet : Best
none_yet = record { index = minus_one; min_seq_num = 257 }

-- the body of the search loop; `index` is -1 or a slot
unfoldable pub scan_slot : SharedMemoryEntry → ℕ → Best → Best
scan_slot e i b =
    let seq = byte_at (e.recv_buffer i) 0 in
    if e.rbuff_free i
    then b
    else if not (is_negative b.index) && ltb seq b.min_seq_num
    then record { index = pos i; min_seq_num = seq }
    else if is_negative b.index
    then record { index = pos i; min_seq_num = seq }
    else b

unfoldable pub scan : ℕ → ℕ → SharedMemoryEntry → Best → Best
scan zero i e b = b
scan (suc n) i e b = scan n (i + 1) e (scan_slot e i b)

-- The hand-over of slot `i`, whose message has number `seq`. The copy goes by `strlen`, whatever
-- the capacity of the caller's buffer is.
unfoldable pub deliver : SharedMemoryEntry → ℕ → ℕ → ℕ → Outcome (Bytes × SharedMemoryEntry)
deliver e i seq capacity =
    let body = drop 2 (e.recv_buffer i) in
    elim (strlen body) [
      | none ↦ fault
      | some n ↦
          if ltb capacity n
          then fault
          else let grown = e.rwnd.size +ℤ pos 1 in
            done (
              take n body,
              record e {
                rbuff_free = update e.rbuff_free i true;
                recv_buffer = update e.recv_buffer i zero_buffer;
                rwnd = record (e.rwnd) {
                  size = if ltb_ℤ (pos 10) grown then pos 10 else grown;
                  index_seq_num = update e.rwnd.index_seq_num seq minus_one;
                  valid_seq_num = update e.rwnd.valid_seq_num seq true;
                };
              },
            )
    ]

-- Nothing to hand over: every buffered message lies past the window's start, or none is there.
abbrev pub nothing_ready : SharedMemoryEntry → Best → Bool
nothing_ready e b =
    (ltb e.rwnd.start_sequence b.min_seq_num || b.min_seq_num == 257) || is_negative b.index

-- The result is what the call returns and what it writes to the caller's buffer.
unfoldable pub k_recvfrom : Bool → ℕ → World → ℤ → ℕ → Outcome (ℤ × Bytes × World)
k_recvfrom opened me w sockfd capacity =
    if bad_descriptor sockfd
    then done (minus_one, [], w)
    else if not opened
    then done (minus_one, [], w)
    else sem_wait w >>= λ v.
        let fd = pos_part sockfd in
        let e = v.shared fd in
        if e.is_free == 1 || not (e.pid == me)
        then done (minus_one, [], sem_post v)
        else let b = scan slots 0 e none_yet in
          if nothing_ready e b
          then done (minus_one, [], sem_post v)
          else deliver e (pos_part b.index) b.min_seq_num capacity >>= λ r.
              done (pos (length r.0), r.0, sem_post (put_entry v fd r.1))
