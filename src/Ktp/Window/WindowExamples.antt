-- ===== src/Ktp/Window/WindowExamples.antt =====
-- The sender's side after two messages, the ACK of the first, and a pass of thread S.
use cn_assignments.Base.{pos, Bytes, List, [], ◌∷◌, update}
use cn_assignments.Ktp.Types.{SharedMemoryEntry}
use cn_assignments.Ktp.Sockets.{init_entry, claim, request_bind}
use cn_assignments.Ktp.Send.{frame}
use cn_assignments.Ktp.Window.Queue.{queued}

-- an entry that process 7 has claimed and bound
abbrev bound_entry : SharedMemoryEntry
bound_entry =
    record (request_bind (b'1' ∷ []) 5000 (b'2' ∷ []) 6000 (claim 7 (init_entry (pos 3)))) {
      is_free = 0;
    }

abbrev one : SharedMemoryEntry
one = queued bound_entry 0 (b'h' ∷ []) []

abbrev two : SharedMemoryEntry
two = queued one 1 (b'i' ∷ []) []

abbrev sent_two : SharedMemoryEntry
sent_two = record two { send_time = update (update two.send_time 0 (pos 4)) 1 (pos 4) }

-- the two frames
abbrev both : List Bytes
both = frame 1 0 (b'h' ∷ []) [] ∷ frame 2 1 (b'i' ∷ []) [] ∷ []
