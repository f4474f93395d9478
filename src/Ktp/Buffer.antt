-- ===== src/Ktp/Buffer.antt =====
-- The receive buffer of an entry: its invariant, and that arrivals and k_recvfrom keep it.
pub mod Store
pub mod Accept
pub mod Early
pub mod Arrive
pub mod Read
pub mod Deliver
use cn_assignments.Base.{
  ℕ, ◌+◌, ◌-◌, ◌%◌, ◌<◌, ◌≤◌, ◌≡◌, refl, ap, sym, true, false, ℤ, pos, minus_one, arith, count,
  count-all, leb_ℤ,
}
use cn_assignments.Ktp.Types.{SharedMemoryEntry, byte_at, slots}
use cn_assignments.Ktp.Sockets.{init_entry}

-- a slot that holds an unread message with number `seq`
abbrev pub Holds : SharedMemoryEntry → ℕ → ℕ → Type 0
Holds e seq i = (i < slots) × (e.rbuff_free i ≡ false) × (byte_at (e.recv_buffer i) 0 ≡ seq)

-- The room that the receiver advertises is the number of free slots; a number that is marked as
-- received has an unread message; no index is below -1.
pub record ReceiverIsValid (e : SharedMemoryEntry) : Type 0 where
  pub low : 1 ≤ e.rwnd.start_sequence
  pub high : e.rwnd.start_sequence ≤ 255
  pub room : e.rwnd.size ≡ pos (count slots e.rbuff_free)
  pub buffered : (s : ℕ) → e.rwnd.valid_seq_num s ≡ false → (i : ℕ) × Holds e s i
  pub index : (s : ℕ) → leb_ℤ minus_one (e.rwnd.index_seq_num s) ≡ true

pub init_entry-ReceiverIsValid : (fd : ℤ) → ReceiverIsValid (init_entry fd)
unfolding init_entry
init_entry-ReceiverIsValid fd = record {
  low = omega arith;
  high = omega arith;
  room = ap pos (sym (count-all slots));
  buffered = λ s h. absurd (cc);
  index = λ s. refl;
}
