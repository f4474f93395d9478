-- ===== src/Ktp/Window/Release.antt =====
-- One round of the ACK branch gives back the first message of the window.
use cn_assignments.Base.{
  ℕ, zero, suc, ◌+◌, ◌<◌, ◌≤◌, ◌≡◌, ◌≢◌, refl, subst, sym, ap, ◌∙◌, true, false, ℤ, pos, negsuc,
  minus_one, arith, count-update, done, fault, update, dec_lt,
}
use cn_assignments.Ktp.Types.{SharedMemoryEntry, next_seq, slots, zero_buffer}
use cn_assignments.Ktp.Acks.{release_seq, release_until}
use cn_assignments.Ktp.Window.{seq_at, IsSlot, IsWindow, seq_at-next}

-- the entry after the round for number `j` in slot `s`
abbrev pub released : SharedMemoryEntry → ℕ → ℕ → SharedMemoryEntry
released e j s = record e {
  swnd = record (e.swnd) {
    valid_seq_num = update e.swnd.valid_seq_num j false;
    index_seq_num = update e.swnd.index_seq_num j minus_one;
  };
  send_buffer = update e.send_buffer s zero_buffer;
  send_time = update e.send_time s minus_one;
  sbuff_free = update e.sbuff_free s true;
}

-- the slot of a message in the window, as a number
pub slot_of :
    (e : SharedMemoryEntry) (seq : ℕ) (x : ℤ)
    → IsSlot e seq x
    → (t : ℕ) × (x ≡ pos t) × (t < slots) × (e.sbuff_free t ≡ false)
slot_of e seq (negsuc m) p = absurd p
slot_of e seq (pos t) p = (t, refl, p.0, p.1)

-- A message in another slot stays.
IsSlot-released :
    (e : SharedMemoryEntry) (j s seq : ℕ) (x : ℤ)
    → x ≢ pos s
    → IsSlot e seq x
    → IsSlot (released e j s) seq x
IsSlot-released e j s seq (negsuc m) ne p = absurd p
IsSlot-released e j s seq (pos t) ne p = let far : s ≢ t = λ q. ne (ap pos (sym q)) in ground arith

module _ {e : SharedMemoryEntry} {s n : ℕ} (w : IsWindow e s (suc n)) (t : ℕ)
    (at : e.swnd.index_seq_num s ≡ pos t) (h : t < slots) (busy : e.sbuff_free t ≡ false) where
  abbrev shrunk : SharedMemoryEntry
  shrunk = released e s t

  pub index-rest :
      (k : ℕ)
      → k < 254
      → shrunk.swnd.index_seq_num (seq_at (next_seq s) k) ≡ e.swnd.index_seq_num (seq_at s (k + 1))
  index-rest k p =
      rw (seq_at-next s k w.low w.high)
        (let far : s ≢ seq_at s (k + 1) = omega (arith, w.low, w.high) in ground arith)

  first : seq_at s 0 ≡ s
  first = omega (arith, w.low, w.high)

  rest-IsSlot :
      (k : ℕ)
      → k < n
      → IsSlot shrunk (seq_at (next_seq s) k) (shrunk.swnd.index_seq_num (seq_at (next_seq s) k))
  rest-IsSlot k p =
      let small : suc n ≤ slots = omega (arith, w.used) in
      let apart : e.swnd.index_seq_num (seq_at s (k + 1)) ≢ pos t = λ q.
        omega (arith, w.distinct 0 (k + 1) (omega arith) (omega arith) (rw first (at ∙ sym q))) in
      rw (index-rest k (omega arith), seq_at-next s k w.low w.high)
        (IsSlot-released e s t _ _ apart (w.slot (k + 1) (omega arith)))

  pub released-IsWindow : IsWindow shrunk (next_seq s) n
  released-IsWindow = record {
    low = omega arith;
    high = omega arith;
    upcoming = omega (arith, w.upcoming, w.low, w.high);
    used = ground (arith, count-update slots e.sbuff_free t true h, w.used);
    slot = rest-IsSlot;
    distinct = λ j k hj hk q.
        let small : suc n ≤ slots = omega (arith, w.used) in
        omega (
          arith,
          w.distinct (j + 1) (k + 1) (omega arith) (omega arith)
              (sym (index-rest j (omega arith)) ∙ q ∙ index-rest k (omega arith)),
        );
    empty = λ k p l. elim (dec_lt k 254) [
      | yes b ↦ index-rest k b ∙ w.empty (k + 1) (omega arith) (omega arith)
      | no b ↦ let round : s ≡ seq_at (next_seq s) k = omega (arith, w.low, w.high) in ground arith
    ];
  }

-- what the rounds of the loop keep of the entry besides the window
pub record Kept (e e' : SharedMemoryEntry) : Type 0 where
  pub size : e'.swnd.size ≡ e.swnd.size
  pub last : e'.last_ack_received ≡ e.last_ack_received
  pub receiver : e'.rwnd ≡ e.rwnd

pub release_seq-IsWindow :
    {e : SharedMemoryEntry} {s n : ℕ}
    → IsWindow e s (suc n)
    → (e' : SharedMemoryEntry) × (release_seq e s ≡ done e')
      × IsWindow e' (next_seq s) n
      × Kept e e'
unfolding release_seq
release_seq-IsWindow {e} {s} {n} w =
    let first : seq_at s 0 ≡ s = omega (arith, w.low, w.high) in
    let (t, at, h, busy) = slot_of e s _ (rw first at (w.slot 0 (omega arith))) in
    (
      released e s t,
      ground (arith, w.high),
      released-IsWindow w t at h busy,
      record { size = refl; last = refl; receiver = refl },
    )

abbrev pub restart : SharedMemoryEntry → ℕ → SharedMemoryEntry
restart e j = record e { swnd = record (e.swnd) { start_sequence = j } }

-- The loop gives back the first `m` messages of the window and stops, within `fuel` rounds. The
-- number that it stops at is a variable, for the recursion.
pub release_until-from :
    (fuel m n : ℕ) {e : SharedMemoryEntry} {s stop total : ℕ}
    → IsWindow e s total
    → total ≡ m + n
    → stop ≡ seq_at s m
    → m < fuel
    → m < 255
    → (e' : SharedMemoryEntry) × (release_until fuel s stop e ≡ done (restart e' stop))
      × IsWindow e' stop n
      × Kept e e'
unfolding release_until
release_until-from zero m n w c q h l = absurd (omega arith)
release_until-from (suc fuel) zero n {e} {s} {stop} {total} w c q h l =
    let here : s ≡ stop = omega (arith, w.low, w.high) in
    let none_left : total ≡ n = omega arith in
    let all : IsWindow e s n = subst (IsWindow e s) none_left w in
    (e, ground arith, rw here at all, record { size = refl; last = refl; receiver = refl })
release_until-from (suc fuel) (suc m) n {e} {s} {stop} {total} w c q h l =
    let more : total ≡ suc (m + n) = c ∙ omega arith in
    let (e1, step, w1, k1) = release_seq-IsWindow {n = m + n} (subst (IsWindow e s) more w) in
    let (e', loop, w', k') =
      release_until-from fuel m n w1 refl (q ∙ omega (arith, w.low, w.high)) (omega arith)
        (omega arith) in
    let apart : s ≢ stop = omega (arith, w.low, w.high) in
    (
      e',
      ground arith,
      w',
      record {
        size = k'.size ∙ k1.size;
        last = k'.last ∙ k1.last;
        receiver = k'.receiver ∙ k1.receiver;
      },
    )

release_seq_empty :
    (e : SharedMemoryEntry) {s : ℕ}
    → s ≤ 255
    → e.swnd.index_seq_num s ≡ minus_one
    → release_seq e s ≡ fault
unfolding release_seq
release_seq_empty e h p = ground arith

-- A loop that is to go past the last message of the window accesses slot -1.
pub release_until-fault :
    (fuel total m : ℕ) {e : SharedMemoryEntry} {s stop : ℕ}
    → IsWindow e s total
    → stop ≡ seq_at s m
    → total < m
    → total < fuel
    → m < 255
    → release_until fuel s stop e ≡ fault
unfolding release_until
release_until-fault zero total m w q h f l = absurd (omega arith)
release_until-fault (suc fuel) total zero w q h f l = absurd (omega arith)
release_until-fault (suc fuel) zero (suc m) {e} {s} {stop} w q h f l =
    let apart : s ≢ stop = omega (arith, w.low, w.high) in
    let first : seq_at s 0 ≡ s = omega (arith, w.low, w.high) in
    ground (arith, release_seq_empty e w.high (rw first at (w.empty 0 (omega arith) (omega arith))))
release_until-fault (suc fuel) (suc total) (suc m) {e} {s} {stop} w q h f l =
    let apart : s ≢ stop = omega (arith, w.low, w.high) in
    let (e1, step, w1, k1) = release_seq-IsWindow w in
    ground (
      arith,
      release_until-fault fuel total m w1 (q ∙ omega (arith, w.low, w.high)) (omega arith)
          (omega arith) (omega arith),
    )
