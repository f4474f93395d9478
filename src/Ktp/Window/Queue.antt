-- ===== src/Ktp/Window/Queue.antt =====
-- k_sendto adds one message to the window.
use cn_assignments.Base.{
  ℕ, suc, ◌<◌, ◌≤◌, ◌≡◌, ◌≢◌, sym, ◌∙◌, true, false, some, ℤ, pos, negsuc, arith, count-update,
  Bytes, done, find_from, update, dec_lt, find_from-some, find_from_of_count,
}
use cn_assignments.Ktp.Types.{SharedMemoryEntry, next_seq, slots}
use cn_assignments.Ktp.Send.{frame, queue_at}
use cn_assignments.Ktp.Window.{seq_at, IsSlot, IsWindow, SenderIsValid, seq_at-injective}

-- the entry after `queue_at`
abbrev pub queued : SharedMemoryEntry → ℕ → Bytes → Bytes → SharedMemoryEntry
queued e i message stack =
    let seq = e.max_seq_number_yet in
    record e {
      max_seq_number_yet = next_seq seq;
      swnd = record (e.swnd) {
        index_seq_num = update e.swnd.index_seq_num seq (pos i);
        valid_seq_num = update e.swnd.valid_seq_num seq true;
      };
      sbuff_free = update e.sbuff_free i false;
      send_buffer = update e.send_buffer i (frame seq i message stack);
    }

module _ {e : SharedMemoryEntry} {s n : ℕ} (w : IsWindow e s n) where
  pub window-lt : n ≤ slots
  window-lt = omega (arith, w.used)

-- A message that lies in its slot stays there when a free slot is filled, and lies elsewhere.
IsSlot-queued :
    (e : SharedMemoryEntry) (i : ℕ) (message stack : Bytes) (seq : ℕ) (x : ℤ)
    → e.sbuff_free i ≡ true
    → IsSlot e seq x
    → IsSlot (queued e i message stack) seq x × (x ≢ pos i)
IsSlot-queued e i message stack seq (negsuc m) free p = absurd p
IsSlot-queued e i message stack seq (pos t) free p = ground arith

-- the message that is queued lies in the slot it was given
IsSlot-new :
    (e : SharedMemoryEntry) (i : ℕ) (message stack : Bytes)
    → i < slots
    → e.max_seq_number_yet < 256
    → IsSlot (queued e i message stack) e.max_seq_number_yet (pos i)
unfolding frame
IsSlot-new e i message stack h small = ground arith

module _ {e : SharedMemoryEntry} {s n : ℕ} (w : IsWindow e s n) (i : ℕ) (message stack : Bytes)
    (h : i < slots) (free : e.sbuff_free i ≡ true) where
  abbrev grown : SharedMemoryEntry
  grown = queued e i message stack

  -- the numbers that are not the new one keep their slots
  pub index-other :
      (k : ℕ)
      → k < 255
      → k ≢ n
      → grown.swnd.index_seq_num (seq_at s k) ≡ e.swnd.index_seq_num (seq_at s k)
  index-other k p ne =
      let l : n ≤ slots = window-lt w in
      let far : seq_at s n ≢ seq_at s k =
        λ q. ne (sym (seq_at-injective s n k (omega arith) p q)) in
      ground (arith, w.upcoming)

  pub index-new : grown.swnd.index_seq_num (seq_at s n) ≡ pos i
  index-new = ground (arith, w.upcoming)

  old-IsSlot :
      (k : ℕ)
      → k < n
      → IsSlot grown (seq_at s k) (grown.swnd.index_seq_num (seq_at s k))
        × (grown.swnd.index_seq_num (seq_at s k) ≢ pos i)
  old-IsSlot k p =
      rw (index-other k (omega (arith, window-lt w)) (omega arith))
        (IsSlot-queued e i message stack (seq_at s k) _ free (w.slot k p))

  new-IsSlot : IsSlot grown (seq_at s n) (grown.swnd.index_seq_num (seq_at s n))
  new-IsSlot =
      rw (index-new, ← w.upcoming) (IsSlot-new e i message stack h (omega (arith, w.upcoming)))

  grown-distinct :
      (j k : ℕ)
      → j < suc n
      → k < suc n
      → grown.swnd.index_seq_num (seq_at s j) ≡ grown.swnd.index_seq_num (seq_at s k)
      → j ≡ k
  grown-distinct j k hj hk q = elim (dec_lt j n) [
    | yes a ↦ elim (dec_lt k n) [
      | yes b ↦ w.distinct j k a b (
          sym (index-other j (omega (arith, window-lt w)) (omega arith))
          ∙ q
          ∙ index-other k (omega (arith, window-lt w)) (omega arith))
      | no b ↦ let last : k ≡ n = omega arith in absurd ((old-IsSlot j a).1 (q ∙ rw last index-new))
    ]
    | no a ↦
        let last : j ≡ n = omega arith in
        elim (dec_lt k n) [
          | yes b ↦ absurd ((old-IsSlot k b).1 (sym q ∙ rw last index-new))
          | no b ↦ omega arith
        ]
  ]

  pub queued-IsWindow : IsWindow grown s (suc n)
  queued-IsWindow = record {
    low = w.low;
    high = w.high;
    upcoming = omega (arith, w.upcoming);
    used = ground (arith, count-update slots e.sbuff_free i false h, w.used);
    slot = λ k p. elim (dec_lt k n) [
      | yes q ↦ (old-IsSlot k q).0
      | no q ↦ let same : k ≡ n = omega arith in rw same new-IsSlot
    ];
    distinct = grown-distinct;
    empty = λ k p l. index-other k l (omega arith) ∙ w.empty k (omega arith) l;
  }

-- A message is queued in the first free slot: the call succeeds, and the window grows by one. It
-- fails for want of a slot exactly when ten messages are queued.
pub queue_at-IsWindow :
    {e : SharedMemoryEntry} {n : ℕ} (message stack : Bytes)
    → SenderIsValid e n
    → n < slots
    → (i : ℕ) × (find_from slots 0 e.sbuff_free ≡ some i)
      × (queue_at e i message stack ≡ done (queued e i message stack))
      × SenderIsValid (queued e i message stack) (suc n)
unfolding queue_at
queue_at-IsWindow {e} {n} message stack w h =
    let (i, found) = find_from_of_count slots e.sbuff_free (omega (arith, w.used)) in
    let r = find_from-some slots 0 e.sbuff_free found in
    (
      i,
      found,
      ground (arith, w.upcoming),
      queued-IsWindow w i message stack (omega (arith, r.upper)) r.is_set,
    )
