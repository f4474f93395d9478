-- ===== src/Ktp/Window/InUse.antt =====
-- An ACK leaves the mark of an entry, whether it is free, as it is.
use cn_assignments.Base.{ℕ, zero, suc, ◌≡◌, refl, subst, ◌||◌, ◌==◌, ltb, ℤ, pos, negsuc, done}
use cn_assignments.Ktp.Types.{SharedMemoryEntry, next_seq, slots}
use cn_assignments.Ktp.Acks.{release_slot, release_seq, release_until, latest, handle_ack}
use cn_assignments.Ktp.Transmit.Stamps.{Whenever, Whenever-bind, Whenever-if}

abbrev SameMark : SharedMemoryEntry → SharedMemoryEntry → Type 0
SameMark e e' = e'.is_free ≡ e.is_free

release_slot-SameMark :
    (e : SharedMemoryEntry) (j : ℕ) (x : ℤ) → Whenever (SameMark e) (release_slot e j x)
unfolding release_slot
release_slot-SameMark e j (negsuc n) = tt
release_slot-SameMark e j (pos s) = Whenever-if (SameMark e) (ltb s slots) _ _ refl tt

release_seq-SameMark : (e : SharedMemoryEntry) (j : ℕ) → Whenever (SameMark e) (release_seq e j)
unfolding release_seq
release_seq-SameMark e j =
    Whenever-if (SameMark e) (ltb j 256) _ _ (release_slot-SameMark e j (e.swnd.index_seq_num j)) tt

release_until-SameMark :
    (n j stop : ℕ) (e : SharedMemoryEntry) → Whenever (SameMark e) (release_until n j stop e)
unfolding release_until
release_until-SameMark zero j stop e = tt
release_until-SameMark (suc n) j stop e = Whenever-if (SameMark e) (j == stop) _ _ refl (
    Whenever-bind (SameMark e) (SameMark e) (release_seq e j) _ (release_seq-SameMark e j) (λ u h.
      subst
        (λ f.
          Whenever (λ (v : SharedMemoryEntry). v.is_free ≡ f) (release_until n (next_seq j) stop u))
        h (release_until-SameMark n (next_seq j) stop u)))

handle_ack-Whenever :
    (e : SharedMemoryEntry) (acked room : ℕ) → Whenever (SameMark e) (handle_ack e acked room)
unfolding handle_ack
handle_ack-Whenever e acked room =
    Whenever-if (SameMark e) ((acked == 0) || ltb 255 acked) _ _ refl (
      Whenever-if (SameMark e) (ltb 10 room) _ _ refl (
        release_until-SameMark 256 e.swnd.start_sequence
          (next_seq (latest acked e.last_ack_received))
          (record e {
            swnd = record (e.swnd) { size = room };
            last_ack_received = latest acked e.last_ack_received;
          })))

pub handle_ack-is_free :
    (e e' : SharedMemoryEntry) (acked room : ℕ)
    → handle_ack e acked room ≡ done e'
    → e'.is_free ≡ e.is_free
handle_ack-is_free e e' acked room d =
    subst (Whenever (SameMark e)) d (handle_ack-Whenever e acked room)
