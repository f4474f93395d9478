-- ===== src/Ktp/Transmit/Fresh.antt =====
-- The first transmissions of thread S: what they send, and how far past the peer's room they go.
use cn_assignments.Base.{
  ℕ, zero, suc, ◌+◌, ◌-◌, ◌<◌, ◌≤◌, ◌≡◌, ◌≢◌, refl, sym, ap, ◌∙◌, true, false, some, none, ℤ, pos,
  negsuc, pos_part, arith, List, [], ◌∷◌, All, length, if◌then◌else◌, Outcome, done, Bool-cases,
  ◌⊎◌, inl, inr, dec_lt,
}
use cn_assignments.Ktp.Types.{SharedMemoryEntry, Datagram, to_peer, next_seq, slots}
use cn_assignments.Ktp.Arrivals.{Sent}
use cn_assignments.Ktp.Transmit.{transmit, unsent, window_stop, fresh_slot, send_from, send_new}
use cn_assignments.Ktp.Transmit.Resend.{slot_at}
use cn_assignments.Ktp.Window.{seq_at, IsSlot, IsWindow, SenderIsValid, seq_at-next}

abbrev IsPlaced : ℤ → Type 0
IsPlaced (negsuc n) = Unit
IsPlaced (pos s) = s < slots

-- The datagram is the frame of one of the `d` messages from number `k` on, not sent before.
pub record FromWindow (e : SharedMemoryEntry) (k d : ℕ) (g : Datagram) : Type 0 where
  pub offset : ℕ
  pub near : offset < d
  pub slot : ℕ
  pub placed : e.swnd.index_seq_num (seq_at k offset) ≡ pos slot
  pub first_time : unsent e slot ≡ true
  pub frame_of : g ≡ to_peer e (e.send_buffer slot)

FromWindow-next :
    (e : SharedMemoryEntry) (k d now s : ℕ) (g : Datagram)
    → 1 ≤ k
    → k ≤ 255
    → FromWindow (transmit now e s) (next_seq k) d g
    → FromWindow e k (suc d) g
FromWindow-next e k d now s g l h f = record {
  offset = f.offset + 1;
  near = omega (arith, f.near);
  slot = f.slot;
  placed = ap e.swnd.index_seq_num (sym (seq_at-next k f.offset l h)) ∙ f.placed;
  first_time = ground (arith, f.first_time);
  frame_of = f.frame_of;
}

FromWindow-skip :
    (e : SharedMemoryEntry) (k d : ℕ) (g : Datagram)
    → 1 ≤ k
    → k ≤ 255
    → FromWindow e (next_seq k) d g
    → FromWindow e k (suc d) g
FromWindow-skip e k d g l h f = record {
  offset = f.offset + 1;
  near = omega (arith, f.near);
  slot = f.slot;
  placed = ap e.swnd.index_seq_num (sym (seq_at-next k f.offset l h)) ∙ f.placed;
  first_time = f.first_time;
  frame_of = f.frame_of;
}

All-map {ℓ} :
    {A : Type ℓ} (P Q : A → Type 0) (xs : List A) → ((x : A) → P x → Q x) → All P xs → All Q xs
All-map P Q [] f h = tt
All-map P Q (x ∷ xs) f h = (f x h.0, All-map P Q xs f h.1)

fresh_slot-cases :
    (e : SharedMemoryEntry) (x : ℤ)
    → IsPlaced x
    → (fresh_slot e x ≡ done none)
      ⊎ ((s : ℕ) × (fresh_slot e x ≡ done (some s)) × (x ≡ pos s) × (unsent e s ≡ true))
unfolding fresh_slot
fresh_slot-cases e (negsuc n) p = inl refl
fresh_slot-cases e (pos s) p = elim (Bool-cases (unsent e s)) [
  | inl new ↦ inr (s, ground arith, refl, new)
  | inr old ↦ inl (ground arith)
]

-- what a run of the loop from `k` sends at most
record Sends (e : SharedMemoryEntry) (k d left : ℕ) (o : Outcome Sent) : Type 0 where
  last : SharedMemoryEntry
  sent : List Datagram
  run : o ≡ done (last, sent)
  few : length sent ≤ left
  from : All (FromWindow e k d) sent

send_from-Sends :
    (fuel d left k stop now : ℕ) (e : SharedMemoryEntry)
    → 1 ≤ k
    → k ≤ 255
    → d < fuel
    → d < 255
    → stop ≡ seq_at k d
    → ((i : ℕ) → i < d → IsPlaced (e.swnd.index_seq_num (seq_at k i)))
    → Sends e k d left (send_from fuel left k stop now e)
unfolding send_from
send_from-Sends zero d left k stop now e l h f b q p = absurd (omega arith)
send_from-Sends (suc fuel) zero left k stop now e l h f b q p =
    let here : k ≡ stop = omega arith in
    record { last = e; sent = []; run = ground arith; few = omega arith; from = tt }
send_from-Sends (suc fuel) (suc d) zero k stop now e l h f b q p = record {
  last = e;
  sent = [];
  run = ground arith;
  few = omega arith;
  from = tt;
}
send_from-Sends (suc fuel) (suc d) (suc left) k stop now e l h f b q p =
    let first : seq_at k 0 ≡ k = omega arith in
    let apart : k ≢ stop = omega arith in
    let rest : (i : ℕ) → i < d → IsPlaced (e.swnd.index_seq_num (seq_at (next_seq k) i)) =
      λ i c. rw (seq_at-next k i l h) (p (i + 1) (omega arith)) in
    elim (fresh_slot-cases e (e.swnd.index_seq_num k) (rw first at (p 0 (omega arith)))) [
      | inl skip ↦
          let r =
            send_from-Sends fuel d (suc left) (next_seq k) stop now e (omega arith) (omega arith)
              (omega arith) (omega arith) (q ∙ omega arith) rest in
          record {
            last = r.last;
            sent = r.sent;
            run = ground (arith, r.run);
            few = r.few;
            from = All-map _ _ r.sent (λ g. FromWindow-skip e k d g l h) r.from;
          }
      | inr (s, new, placed, first_time) ↦
          let e1 = transmit now e s in
          let r =
            send_from-Sends fuel d left (next_seq k) stop now e1 (omega arith) (omega arith)
              (omega arith) (omega arith) (q ∙ omega arith) rest in
          record {
            last = r.last;
            sent = to_peer e (e.send_buffer s) ∷ r.sent;
            run = ground (arith, r.run);
            few = omega (arith, r.few);
            from = (
              record {
                offset = 0;
                near = omega arith;
                slot = s;
                placed = rw first placed;
                first_time = first_time;
                frame_of = refl;
              },
              All-map _ _ r.sent (λ g. FromWindow-next e k d now s g l h) r.from,
            );
          }
    ]

IsSlot-IsPlaced : (e : SharedMemoryEntry) (seq : ℕ) (x : ℤ) → IsSlot e seq x → IsPlaced x
IsSlot-IsPlaced e seq (negsuc n) p = tt
IsSlot-IsPlaced e seq (pos s) p = p.0

window-IsPlaced :
    {e : SharedMemoryEntry} {s n : ℕ}
    → IsWindow e s n
    → (i : ℕ) → i < 255
    → IsPlaced (e.swnd.index_seq_num (seq_at s i))
window-IsPlaced {e} {s} {n} w i h = elim (dec_lt i n) [
  | yes p ↦ IsSlot-IsPlaced e (seq_at s i) _ (w.slot i p)
  | no p ↦ rw (w.empty i (omega arith) h) tt
]

-- A pass without timeout neither faults nor loops. It sends no more messages than the peer has room
-- for, each for the first time, and each from the `size + 1` numbers from the window's start on.
pub send_new_lem :
    {e : SharedMemoryEntry} {n : ℕ} (now : ℕ)
    → SenderIsValid e n
    → e.swnd.size ≤ 10
    → (e' : SharedMemoryEntry) × (sent : List Datagram) × (send_new now e ≡ done (e', sent))
      × (length sent ≤ e.swnd.size)
      × All (FromWindow e e.swnd.start_sequence (e.swnd.size + 1)) sent
unfolding send_new
send_new_lem {e} now w h =
    let r =
      send_from-Sends 257 (e.swnd.size + 1) e.swnd.size e.swnd.start_sequence (window_stop e) now e
        w.low w.high (omega arith) (omega arith) (omega (arith, w.low))
        (λ i p. window-IsPlaced w i (omega arith)) in
    (r.last, r.sent, r.run, r.few, r.from)

fresh_slot-IsSlot :
    (e : SharedMemoryEntry) (seq : ℕ) (x : ℤ)
    → IsSlot e seq x
    → fresh_slot e x ≡ done (if unsent e (pos_part x) then some (pos_part x) else none)
unfolding fresh_slot
fresh_slot-IsSlot e seq (negsuc n) p = absurd p
fresh_slot-IsSlot e seq (pos s) p = ground arith

send_from_old :
    (fuel left k stop now : ℕ) (e : SharedMemoryEntry)
    → k ≢ stop
    → 0 < left
    → k ≤ 255
    → fresh_slot e (e.swnd.index_seq_num k) ≡ done none
    → send_from (suc fuel) left k stop now e ≡ send_from fuel left (next_seq k) stop now e
unfolding send_from
send_from_old fuel left k stop now e apart l h old = ground arith

-- Messages that are sent already are passed over, and do not count.
send_from-skips :
    (m f fuel left k stop now : ℕ) (e : SharedMemoryEntry)
    → fuel ≡ m + f
    → 1 ≤ k
    → k ≤ 255
    → m < 254
    → stop ≡ seq_at k (m + 1)
    → 0 < left
    → ((i : ℕ) → i < m → fresh_slot e (e.swnd.index_seq_num (seq_at k i)) ≡ done none)
    → send_from fuel left k stop now e ≡ send_from f left (seq_at k m) stop now e
send_from-skips zero f fuel left k stop now e c l h b q p old =
    let same : fuel ≡ f = omega arith in let here : seq_at k 0 ≡ k = omega arith in rw (same, here)
send_from-skips (suc m) f fuel left k stop now e c l h b q p old =
    let first : seq_at k 0 ≡ k = omega arith in
    let more : fuel ≡ suc (m + f) = omega arith in
    let shift : seq_at (next_seq k) m ≡ seq_at k (suc m) = omega arith in
    rw more (
      send_from_old (m + f) left k stop now e (omega arith) p h (rw first at (old 0 (omega arith)))
      ∙ send_from-skips m f (m + f) left (next_seq k) stop now e refl (omega arith) (omega arith)
          (omega arith) (q ∙ omega arith) p
          (λ i c. rw (seq_at-next k i l h) (old (i + 1) (omega arith)))
      ∙ rw shift)

send_from_last :
    (fuel left k stop now s : ℕ) (e : SharedMemoryEntry)
    → k ≢ stop
    → 0 < left
    → k ≤ 255
    → next_seq k ≡ stop
    → fresh_slot e (e.swnd.index_seq_num k) ≡ done (some s)
    → send_from (suc (suc fuel)) left k stop now e
      ≡ done (transmit now e s, to_peer e (e.send_buffer s) ∷ [])
unfolding send_from
send_from_last fuel left k stop now s e apart l h q new = ground arith

-- While all messages that the peer has room for are under way, the next queued message is sent as
-- well: one more than the peer has room for is then unacknowledged.
pub send_new_overrun :
    {e : SharedMemoryEntry} {n : ℕ} (now : ℕ)
    → SenderIsValid e n
    → 0 < e.swnd.size
    → e.swnd.size < n
    → ((i : ℕ) → i < e.swnd.size → unsent e (slot_at e (seq_at e.swnd.start_sequence i)) ≡ false)
    → unsent e (slot_at e (seq_at e.swnd.start_sequence e.swnd.size)) ≡ true
    → (let s = slot_at e (seq_at e.swnd.start_sequence e.swnd.size) in
        send_new now e ≡ done (transmit now e s, to_peer e (e.send_buffer s) ∷ []))
unfolding send_new
send_new_overrun {e} {n} now w p h old new =
    let start : ℕ = e.swnd.start_sequence in
    let size : ℕ = e.swnd.size in
    let small : n ≤ 10 = omega (arith, w.used) in
    let k : ℕ = seq_at start size in
    let fresh : fresh_slot e (e.swnd.index_seq_num k) ≡ done (some (slot_at e k)) =
      fresh_slot-IsSlot e k _ (w.slot size h) ∙ rw new in
    send_from-skips size (257 - size) 257 size start (window_stop e) now e (omega arith) w.low
      w.high (omega arith) (omega (arith, w.low)) p
      (λ i c. fresh_slot-IsSlot e _ _ (w.slot i (omega arith)) ∙ rw (old i c))
    ∙ (let left_over : 257 - size ≡ suc (suc (255 - size)) = omega arith in
        rw left_over (
          send_from_last (255 - size) size k (window_stop e) now (slot_at e k) e (omega arith) p
            (omega arith) (omega (arith, w.low)) fresh))
