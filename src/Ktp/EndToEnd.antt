-- ===== src/Ktp/EndToEnd.antt =====
-- A message from k_sendto through thread R of the peer to its k_recvfrom, and the number 255, at
-- which the numbers start again.
use cn_assignments.Base.{
  ℕ, zero, suc, ◌+◌, ◌<◌, ◌≤◌, ◌≡◌, ◌≢◌, sym, ap, subst, ◌∙◌, true, false, some, pos, minus_one,
  arith, Bytes, List, All, update, ltb_ℤ, Outcome, done, ◌>>=◌, ℤ, drop, take, strlen,
  strlen-append, take-append, length, [], ◌∷◌, count-pos, find_from-some,
}
use cn_assignments.Ktp.Types.{
  SharedMemoryEntry, Datagram, World, put_entry, byte_at, slots, next_seq,
}
use cn_assignments.Ktp.Send.{frame}
use cn_assignments.Ktp.Receive.{k_recvfrom}
use cn_assignments.Ktp.Arrivals.{handle_data}
use cn_assignments.Ktp.Window.{seq_at}
use cn_assignments.Ktp.Buffer.{ReceiverIsValid}
use cn_assignments.Ktp.Buffer.Accept.{in_order-ReceiverIsValid}
use cn_assignments.Ktp.Buffer.Arrive.{handle_data_expected}
use cn_assignments.Ktp.Buffer.Deliver.{AllPast, Fits, delivered, k_recvfrom_least, k_recvfrom_none}

-- no unread message
abbrev pub IsEmptied : SharedMemoryEntry → Type 0
IsEmptied e = (j : ℕ) → j < slots → e.rbuff_free j ≡ true

-- what an empty receiver has after the frame of the expected message has arrived
pub record Took (e e' : SharedMemoryEntry) (j : ℕ) (buffer : Bytes) : Type 0 where
  pub valid : ReceiverIsValid e'
  pub used : e'.is_free ≡ e.is_free
  pub owner : e'.pid ≡ e.pid
  pub in_range : j < slots
  pub at_slot : e'.recv_buffer j ≡ buffer
  pub busy : e'.rbuff_free j ≡ false
  pub alone : (i : ℕ) → i < slots → e'.rbuff_free i ≡ false → i ≡ j
  pub moved : e'.rwnd.start_sequence ≡ next_seq e.rwnd.start_sequence

-- The window moves by one place: the number after the only unread message is missing.
moved_one :
    {e' : SharedMemoryEntry} (seq j k : ℕ) (buffer : Bytes)
    → ReceiverIsValid e'
    → byte_at buffer 0 ≡ seq
    → 1 ≤ seq
    → seq ≤ 255
    → e'.recv_buffer j ≡ buffer
    → ((i : ℕ) → i < slots → e'.rbuff_free i ≡ false → i ≡ j)
    → ((i : ℕ) → 0 ≤ i → i < k → e'.rwnd.valid_seq_num (seq_at seq i) ≡ false)
    → e'.rwnd.valid_seq_num seq ≡ false
    → e'.rwnd.valid_seq_num (seq_at seq k) ≡ true
    → seq_at seq k ≡ next_seq seq
moved_one {e'} seq j zero buffer v q l h a alone before got missing =
    let here : seq_at seq 0 ≡ seq = omega arith in
    let missing' : e'.rwnd.valid_seq_num seq ≡ true = rw here at missing in absurd (cc)
moved_one seq j (suc zero) buffer v q l h a alone before got missing = omega arith
moved_one {e'} seq j (suc (suc k)) buffer v q l h a alone before got missing =
    let (i, held) = v.buffered (seq_at seq 1) (before 1 (omega arith) (omega arith)) in
    let same : i ≡ j = alone i held.0 held.1 in
    let there : e'.recv_buffer i ≡ buffer = rw same a in
    let head : byte_at buffer 0 ≡ seq_at seq 1 = ap (λ b. byte_at b 0) (sym there) ∙ held.2 in
    absurd (omega arith)

handle_data-Took :
    {e : SharedMemoryEntry} (buffer : Bytes)
    → ReceiverIsValid e
    → IsEmptied e
    → byte_at buffer 0 ≡ e.rwnd.start_sequence
    → (e' : SharedMemoryEntry) × (j : ℕ) × (sent : List Datagram) × (handle_data e buffer
        ≡ done (e', sent))
      × Took e e' j buffer
handle_data-Took {e} buffer v free q =
    let room : ltb_ℤ (pos 0) e.rwnd.size ≡ true =
      ground (arith, v.room, count-pos slots 0 e.rbuff_free (omega arith) (free 0 (omega arith))) in
    let r = in_order-ReceiverIsValid buffer v q room in
    let j : ℕ = r.1 in
    let f = find_from-some slots 0 e.rbuff_free r.5 in
    let seq : ℕ = e.rwnd.start_sequence in
    let at_slot : r.0.recv_buffer j ≡ buffer = rw r.6 (ground arith) in
    let alone : (i : ℕ) → i < slots → r.0.rbuff_free i ≡ false → i ≡ j = λ i h b.
      let b' : update e.rbuff_free j false i ≡ false = rw r.7 at b in
      let a = free i h in ground arith in
    (
      r.0,
      j,
      _,
      handle_data_expected e buffer q room ∙ r.3,
      record {
        valid = r.4;
        used = r.9;
        owner = r.10;
        in_range = omega (arith, f.upper);
        at_slot = at_slot;
        busy = rw r.7 (ground arith);
        alone = alone;
        moved =
            r.12
            ∙ moved_one seq j r.2 buffer r.4 q v.low v.high at_slot alone r.13.before
                (rw r.11 (ground arith)) r.13.is_set;
      },
    )

-- The text of a slot that holds a frame is the message that was framed.
frame-text :
    (e : SharedMemoryEntry) (j seq slot : ℕ) (message stack : Bytes)
    → e.recv_buffer j ≡ frame seq slot message stack
    → All (λ c. c ≢ 0) message
    → (strlen (drop 2 (e.recv_buffer j)) ≡ some (length message))
      × (take (length message) (drop 2 (e.recv_buffer j)) ≡ message)
unfolding frame
frame-text e j seq slot message stack at clean = (
  rw at (strlen-append message (drop (length message + 3) stack) clean),
  rw at (take-append message (0 ∷ drop (length message + 3) stack)),
)

frame-head :
    (seq slot : ℕ) (message stack : Bytes)
    → seq ≤ 255
    → byte_at (frame seq slot message stack) 0 ≡ seq
unfolding frame
frame-head seq slot message stack h = omega arith

-- The owner reads after the frame of number `seq` has been taken and the window has not gone round.
read_frame :
    (me fd capacity j slot : ℕ) (w : World) (e : SharedMemoryEntry) (message stack : Bytes)
    → fd < 10
    → 0 < w.sem_sm
    → (w.shared fd).is_free ≢ 1
    → (w.shared fd).pid ≡ me
    → Took e (w.shared fd) j (frame e.rwnd.start_sequence slot message stack)
    → e.rwnd.start_sequence ≤ (w.shared fd).rwnd.start_sequence
    → e.rwnd.start_sequence ≤ 255
    → All (λ c. c ≢ 0) message
    → length message ≤ capacity
    → (u : World) × (k_recvfrom true me w (pos fd) capacity
        ≡ done (pos (length message), message, u))
read_frame me fd capacity j slot w e message stack h l used own t le small clean fits =
    let seq : ℕ = e.rwnd.start_sequence in
    let (ends, text) = frame-text (w.shared fd) j seq slot message stack t.at_slot clean in
    let head : byte_at ((w.shared fd).recv_buffer j) 0 ≡ seq =
      ap (λ b. byte_at b 0) t.at_slot ∙ frame-head seq slot message stack small in
    let fit : (k : ℕ)
        → k < slots
        → (w.shared fd).rbuff_free k ≡ false
        → Fits (w.shared fd) k capacity =
      λ k p b.
        subst (λ i. Fits (w.shared fd) i capacity) (sym (t.alone k p b))
          (length message, ends, fits) in
    let (k, m, n, found, ends', run, _) =
      k_recvfrom_least me fd capacity w h l used own t.valid seq j (t.in_range, t.busy, head) le
        fit in
    let same : k ≡ j = t.alone k found.0.0 found.0.1 in
    let ends'' : strlen (drop 2 ((w.shared fd).recv_buffer j)) ≡ some n = rw same at ends' in
    let count_is : n ≡ length message = cc in
    let got : take n (drop 2 ((w.shared fd).recv_buffer k)) ≡ message = rw (same, count_is) text in
    let u : World = put_entry w fd (delivered (w.shared fd) k m) in
    (u, run ∙ ap (λ (b : Bytes). done (pos (length b), b, u)) got)

-- A data message arrives at socket `fd`, and then its owner calls k_recvfrom.
abbrev pub arrive_and_read : ℕ → ℕ → ℕ → World → Bytes → Outcome (ℤ × Bytes × World)
arrive_and_read me fd capacity w buffer = handle_data (w.shared fd) buffer >>= λ r.
    k_recvfrom true me (put_entry w fd r.0) (pos fd) capacity

-- what the arrival of the expected frame leaves in the table
arrived :
    (fd slot : ℕ) (w : World) (message stack : Bytes)
    → ReceiverIsValid (w.shared fd)
    → IsEmptied (w.shared fd)
    → let e = w.shared fd in
      (e' : SharedMemoryEntry) × (j : ℕ) × (sent : List Datagram) × (handle_data e
          (frame e.rwnd.start_sequence slot message stack)
        ≡ done (e', sent))
      × Took e ((put_entry w fd e').shared fd) j (frame e.rwnd.start_sequence slot message stack)
arrived fd slot w message stack v free =
    let e = w.shared fd in
    let buffer : Bytes = frame e.rwnd.start_sequence slot message stack in
    let (e', j, sent, run, t) =
      handle_data-Took buffer v free (frame-head e.rwnd.start_sequence slot message stack v.high) in
    let seen : e' ≡ (put_entry w fd e').shared fd = ground arith in
    (e', j, sent, run, subst (λ x. Took e x j buffer) seen t)

module _ (me fd capacity slot : ℕ) (w : World) (message stack : Bytes) (in_table : fd < 10)
    (open_lock : 0 < w.sem_sm) (used : (w.shared fd).is_free ≢ 1) (own : (w.shared fd).pid ≡ me)
    (v : ReceiverIsValid (w.shared fd)) (free : IsEmptied (w.shared fd))
    (clean : All (λ c. c ≢ 0) message) (fits : length message ≤ capacity) where
  -- The frame that k_sendto made of a message without NUL bytes, when it is the expected one, its
  -- number is below 255 and nothing else is unread, comes out of k_recvfrom as that message.
  pub message_delivered :
      (w.shared fd).rwnd.start_sequence < 255
      → (u : World) × (arrive_and_read me fd capacity w
            (frame (w.shared fd).rwnd.start_sequence slot message stack)
          ≡ done (pos (length message), message, u))
  message_delivered below =
      let (e', j, sent, run, t) = arrived fd slot w message stack v free in
      let w' : World = put_entry w fd e' in
      let (u, read) =
        read_frame me fd capacity j slot w' (w.shared fd) message stack in_table open_lock
          (λ q. used (sym t.used ∙ q)) (t.owner ∙ own) t (omega (arith, t.moved, v.low)) v.high
          clean fits in
      (u, rw run read)

  -- The same frame with number 255 is taken and acknowledged, and yet k_recvfrom returns -1: the
  -- window has gone round to 1, and the message counts as one past its start.
  pub message_255_withheld :
      (w.shared fd).rwnd.start_sequence ≡ 255
      → (u : World) × (arrive_and_read me fd capacity w
            (frame (w.shared fd).rwnd.start_sequence slot message stack)
          ≡ done (minus_one, [], u))
  message_255_withheld last =
      let (e', j, sent, run, t) = arrived fd slot w message stack v free in
      let w' : World = put_entry w fd e' in
      let seq : ℕ = (w.shared fd).rwnd.start_sequence in
      let past : AllPast (w'.shared fd) = λ i p b.
        let same : i ≡ j = t.alone i p b in
        let head : byte_at ((w'.shared fd).recv_buffer j) 0 ≡ seq =
          ap (λ b. byte_at b 0) t.at_slot ∙ frame-head seq slot message stack v.high in
        rw same (omega (arith, head, t.moved)) in
      (
        w',
        rw run (
            k_recvfrom_none me fd capacity w' in_table open_lock (λ q. used (sym t.used ∙ q))
              (t.owner ∙ own) t.valid past),
      )
