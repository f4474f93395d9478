-- ===== src/Ktp/Buffer/Store.antt =====
-- Storing a message in a free slot of the receive buffer.
use cn_assignments.Base.{ℕ, ◌<◌, ◌≡◌, true, false, arith, count-update, count-pos, Bytes}
use cn_assignments.Ktp.Types.{SharedMemoryEntry, slots}
use cn_assignments.Ktp.Arrivals.{store_at, take_room}
use cn_assignments.Ktp.Buffer.{Holds, ReceiverIsValid}

-- the entry after a message has been stored in slot `j` and counted
abbrev pub stored : SharedMemoryEntry → ℕ → ℕ → Bytes → SharedMemoryEntry
stored e j seq buffer = take_room (store_at e j seq buffer)

Holds-stored :
    (e : SharedMemoryEntry) (j seq : ℕ) (buffer : Bytes) (s i : ℕ)
    → e.rbuff_free j ≡ true
    → Holds e s i
    → Holds (stored e j seq buffer) s i
Holds-stored e j seq buffer s i free h = ground arith

-- A message stored in a free slot keeps the invariant: one slot less is free, and one less is
-- advertised.
pub stored-ReceiverIsValid :
    {e : SharedMemoryEntry} (j seq : ℕ) (buffer : Bytes)
    → ReceiverIsValid e
    → j < slots
    → e.rbuff_free j ≡ true
    → ReceiverIsValid (stored e j seq buffer)
stored-ReceiverIsValid {e} j seq buffer v h free = record {
  low = v.low;
  high = v.high;
  room = ground (
    arith,
    v.room,
    count-update slots e.rbuff_free j false h,
    count-pos slots j e.rbuff_free h free,
  );
  buffered =
      λ s q. let (i, held) = v.buffered s q in (i, Holds-stored e j seq buffer s i free held);
  index = λ s. ground (arith, v.index s);
}
