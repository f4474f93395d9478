-- ===== src/Ktp/Sockets/Reuse.antt =====
-- A socket that is given up and claimed again keeps its buffers.
use cn_assignments.Base.{ℕ, ◌<◌, arith, count}
use cn_assignments.Ktp.Types.{SharedMemoryEntry, slots}
use cn_assignments.Ktp.Sockets.{claim, release_entry}
use cn_assignments.Ktp.Buffer.{Holds, ReceiverIsValid}

-- k_socket on an entry that was closed with unread messages advertises room for ten messages while
-- the unread messages of the former owner still fill slots: the new owner finds them in its buffer,
-- and the room no longer is the number of free slots.
pub claim_keeps_messages :
    (e : SharedMemoryEntry) (me seq i : ℕ)
    → Holds e seq i
    → count slots e.rbuff_free < slots
    → Holds (claim me (release_entry e)) seq i × ¬ ReceiverIsValid (claim me (release_entry e))
unfolding claim
claim_keeps_messages e me seq i held full = (held, λ v. ground (arith, v.room))
