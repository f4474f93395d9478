-- ===== src/Ktp/Buffer/Deliver.antt =====
-- k_recvfrom as a whole: the hand-over keeps the buffer's invariant and gives the least message.
use cn_assignments.Base.{
  ℕ, ◌<◌, ◌≤◌, ◌≡◌, ◌≢◌, sym, ◌∙◌, true, false, some, pos, minus_one, pos_part, arith, count-update,
  count-le, update, ltb_ℤ, ◌+ℤ◌, if◌then◌else◌, done, drop, take, strlen, length, [], ◌>>=◌,
}
use cn_assignments.Ktp.Types.{SharedMemoryEntry, World, put_entry, byte_at, slots, zero_buffer}
use cn_assignments.Ktp.Sockets.Claim.{relock}
use cn_assignments.Ktp.Receive.{Best, none_yet, scan, deliver, nothing_ready, k_recvfrom}
use cn_assignments.Ktp.Buffer.{Holds, ReceiverIsValid}
use cn_assignments.Ktp.Buffer.Read.{Searched, empty, least, search-Searched}

-- the entry after slot `i` with message `seq` has been handed over
abbrev pub delivered : SharedMemoryEntry → ℕ → ℕ → SharedMemoryEntry
delivered e i seq =
    let grown = e.rwnd.size +ℤ pos 1 in
    record e {
      rbuff_free = update e.rbuff_free i true;
      recv_buffer = update e.recv_buffer i zero_buffer;
      rwnd = record (e.rwnd) {
        size = if ltb_ℤ (pos 10) grown then pos 10 else grown;
        index_seq_num = update e.rwnd.index_seq_num seq minus_one;
        valid_seq_num = update e.rwnd.valid_seq_num seq true;
      };
    }

delivered-ReceiverIsValid :
    {e : SharedMemoryEntry} (i seq : ℕ)
    → ReceiverIsValid e
    → Holds e seq i
    → ReceiverIsValid (delivered e i seq)
delivered-ReceiverIsValid {e} i seq v held = record {
  low = v.low;
  high = v.high;
  room = ground (
    arith,
    v.room,
    held.1,
    count-update slots e.rbuff_free i true held.0,
    count-le slots (update e.rbuff_free i true),
  );
  buffered = λ s q.
      let ne : seq ≢ s = ground arith in
      let old : e.rwnd.valid_seq_num s ≡ false = ground arith in
      let (j, h) = v.buffered s old in
      let apart : i ≢ j = λ same. ne (sym held.2 ∙ rw same h.2) in (j, ground arith);
  index = λ s. ground (arith, v.index s);
}

-- the text of slot `k` ends within its buffer and fits the caller's
abbrev pub Fits : SharedMemoryEntry → ℕ → ℕ → Type 0
Fits e k capacity = (n : ℕ) × (strlen (drop 2 (e.recv_buffer k)) ≡ some n) × (n ≤ capacity)

deliver-delivered :
    (e : SharedMemoryEntry) (k seq capacity n : ℕ)
    → strlen (drop 2 (e.recv_buffer k)) ≡ some n
    → n ≤ capacity
    → deliver e k seq capacity ≡ done (take n (drop 2 (e.recv_buffer k)), delivered e k seq)
unfolding deliver
deliver-delivered e k seq capacity n s h = ground arith

-- all unread messages of an entry lie past the window's start
abbrev pub AllPast : SharedMemoryEntry → Type 0
AllPast e =
    (j : ℕ)
    → j < slots
    → e.rbuff_free j ≡ false
    → e.rwnd.start_sequence < byte_at (e.recv_buffer j) 0

-- slot `k` holds an unread message with number `m`, and no unread message has a lesser one
abbrev pub HoldsLeast : SharedMemoryEntry → ℕ → ℕ → Type 0
HoldsLeast e m k =
    Holds e m k × ((j : ℕ) → j < slots → e.rbuff_free j ≡ false → m ≤ byte_at (e.recv_buffer j) 0)

nothing_ready-true :
    (e : SharedMemoryEntry) (b : Best)
    → Searched e slots b
    → e.rwnd.start_sequence ≤ 255
    → AllPast e
    → nothing_ready e b ≡ true
nothing_ready-true e b (empty x m all) h past = ground arith
nothing_ready-true e b (least k l x f m all) h past = ground (arith, past k l f)

nothing_ready-false :
    (e : SharedMemoryEntry) (b : Best) {seq i : ℕ}
    → Searched e slots b
    → e.rwnd.start_sequence ≤ 255
    → Holds e seq i
    → seq ≤ e.rwnd.start_sequence
    → (k : ℕ) × (b.index ≡ pos k) × HoldsLeast e b.min_seq_num k × (nothing_ready e b ≡ false)
nothing_ready-false e b {seq} {i} (empty x m all) h held le = let f = all i held.0 in absurd (cc)
nothing_ready-false e b {seq} {i} (least k l x f m all) h held le =
    (k, x, ((l, f, m), all), ground (arith, all i held.0 held.1))

module _ (me fd capacity : ℕ) (w : World) (in_table : fd < 10) (open_lock : 0 < w.sem_sm)
    (used : (w.shared fd).is_free ≢ 1) (own : (w.shared fd).pid ≡ me)
    (v : ReceiverIsValid (w.shared fd)) where
  abbrev entry : SharedMemoryEntry
  entry = w.shared fd

  abbrev best : Best
  best = scan slots 0 entry none_yet

  k_recvfrom_owned : k_recvfrom true me w (pos fd) capacity ≡ (
      if nothing_ready entry best
      then done (minus_one, [], w)
      else deliver entry (pos_part best.index) best.min_seq_num capacity >>= λ r.
          done (pos (length r.0), r.0, put_entry w fd r.1))
  unfolding k_recvfrom
  k_recvfrom_owned = ground (arith, relock w open_lock)

  -- If every unread message lies past the window's start, k_recvfrom returns -1 and changes nothing.
  pub k_recvfrom_none :
      AllPast entry → k_recvfrom true me w (pos fd) capacity ≡ done (minus_one, [], w)
  k_recvfrom_none past =
      k_recvfrom_owned ∙ rw (nothing_ready-true entry best (search-Searched entry) v.high past)

  -- If some unread message has come up to the window's start, k_recvfrom hands over the text of an
  -- unread message with the least number, frees its slot, keeps the invariant of the receive buffer
  -- and touches no other socket. Premise: the texts end within their buffers and fit the caller's.
  pub k_recvfrom_least :
      (seq i : ℕ)
      → Holds entry seq i
      → seq ≤ entry.rwnd.start_sequence
      → ((k : ℕ) → k < slots → entry.rbuff_free k ≡ false → Fits entry k capacity)
      → (k : ℕ) × (m : ℕ) × (n : ℕ) × HoldsLeast entry m k
        × (strlen (drop 2 (entry.recv_buffer k)) ≡ some n)
        × (k_recvfrom true me w (pos fd) capacity ≡ (
            let text = take n (drop 2 (entry.recv_buffer k)) in
            done (pos (length text), text, put_entry w fd (delivered entry k m))))
        × ReceiverIsValid (delivered entry k m)
  k_recvfrom_least seq i held le fits =
      let (k, x, found, ready) =
        nothing_ready-false entry best (search-Searched entry) v.high held le in
      let (n, ends, short) = fits k found.0.0 found.0.1 in
      (
        k,
        best.min_seq_num,
        n,
        found,
        ends,
        k_recvfrom_owned
            ∙ rw (ready, x, deliver-delivered entry k best.min_seq_num capacity n ends short),
        delivered-ReceiverIsValid k best.min_seq_num v found.0,
      )
