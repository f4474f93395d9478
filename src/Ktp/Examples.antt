-- ===== src/Ktp/Examples.antt =====
-- Runs of the KTP model on small inputs, and the theorems at inputs that meet their premises.
use cn_assignments.Base.{
  ℕ, zero, suc, ◌<◌, ◌≤◌, ◌≡◌, refl, Bool, true, false, some, ℤ, pos, minus_one, arith, Bytes, List,
  [], ◌∷◌, ◌++◌, update, find_from, Outcome, done, fault, All, length, IsFirst, ◌>>=◌, strlen, drop,
  take,
}
use cn_assignments.Ktp.Types.{SharedMemoryEntry, World, Datagram, slots, put_entry}
use cn_assignments.Ktp.Sockets.{
  init_entry, k_socket, k_close, k_bind_request, serve_bind, k_bind_finish, release_entry,
}
use cn_assignments.Ktp.Sockets.Claim.{claim_first, k_socket_lem}
use cn_assignments.Ktp.Sockets.Owner.{k_close_lem}
use cn_assignments.Ktp.Sockets.Bind.{row, bound, k_bind_lem}
use cn_assignments.Ktp.Send.{frame, k_sendto}
use cn_assignments.Ktp.Receive.{k_recvfrom, scan, scan_slot, deliver}
use cn_assignments.Ktp.Acks.{handle_ack, release_until, release_seq}
use cn_assignments.Ktp.Arrivals.{handle_data, in_order, repeat_ack, ack_to_peer}
use cn_assignments.Ktp.Transmit.{send_new, unsent, transmit}
use cn_assignments.Ktp.Transmit.Resend.{slot_at}
use cn_assignments.Ktp.Transmit.Fresh.{FromWindow, send_new_lem}
use cn_assignments.Ktp.Window.{seq_at, SenderIsValid, init_entry-SenderIsValid}
use cn_assignments.Ktp.Window.Queue.{queued, queued-IsWindow}
use cn_assignments.Ktp.Window.Ack.{
  handle_ack-SenderIsValid, handle_ack-fault, handle_acks, handle_acks_after_wrap,
}
use cn_assignments.Ktp.Buffer.{Holds, ReceiverIsValid, init_entry-ReceiverIsValid}
use cn_assignments.Ktp.Buffer.Store.{stored, stored-ReceiverIsValid}
use cn_assignments.Ktp.Buffer.Accept.{in_order-ReceiverIsValid}
use cn_assignments.Ktp.Buffer.Arrive.{EndsValid, handle_data-ReceiverIsValid}
use cn_assignments.Ktp.Buffer.Deliver.{
  Fits, HoldsLeast, delivered, k_recvfrom_none, k_recvfrom_least,
}
use cn_assignments.Ktp.EndToEnd.{IsEmptied, arrive_and_read, message_delivered}

abbrev new_entry : SharedMemoryEntry
new_entry = init_entry (pos 3)

abbrev hello : Bytes
hello = b'h' ∷ b'i' ∷ []

-- `hi` queued as number 1 in slot 0, then again as number 2 in slot 1
abbrev one_queued : SharedMemoryEntry
one_queued = queued new_entry 0 hello []

abbrev two_queued : SharedMemoryEntry
two_queued = queued one_queued 1 hello []

new_entry-SenderIsValid : SenderIsValid new_entry 0
new_entry-SenderIsValid = init_entry-SenderIsValid (pos 3)

one_queued-SenderIsValid : SenderIsValid one_queued 1
unfolding init_entry
one_queued-SenderIsValid = queued-IsWindow new_entry-SenderIsValid 0 hello [] (omega arith) refl

two_queued-SenderIsValid : SenderIsValid two_queued 2
unfolding init_entry
two_queued-SenderIsValid = queued-IsWindow one_queued-SenderIsValid 1 hello [] (omega arith) refl

-- Entry of socket 2, owned by process 7, with an empty receive buffer.
abbrev mine : SharedMemoryEntry
mine = record new_entry { is_free = 0; pid = 7 }

mine-ReceiverIsValid : ReceiverIsValid mine
mine-ReceiverIsValid =
    let v = init_entry-ReceiverIsValid (pos 3) in
    record { low = v.low; high = v.high; room = v.room; buffered = v.buffered; index = v.index }

-- `hi` as number 1, unread in slot 0
abbrev first_frame : Bytes
first_frame = frame 1 0 hello []

abbrev unread : SharedMemoryEntry
unread = stored mine 0 1 first_frame

unread-ReceiverIsValid : ReceiverIsValid unread
unfolding init_entry
unread-ReceiverIsValid =
    stored-ReceiverIsValid 0 1 first_frame mine-ReceiverIsValid (omega arith) refl

unread-Holds : Holds unread 1 0
unfolding frame
unread-Holds = (omega arith, refl, refl)

-- Other sockets are free.
abbrev world_with : SharedMemoryEntry → World
world_with e = record {
  sem_sm = 1;
  sem1 = 0;
  sem2 = 0;
  shared = update (λ i. init_entry (pos i)) 2 e;
}

send_one :
    k_sendto true 7 [] (world_with mine) (pos 2) hello
    ≡ done (pos 2, put_entry (world_with mine) 2 (queued mine 0 hello []))
unfolding k_sendto init_entry find_from
send_one = refl

abbrev start_after : Outcome SharedMemoryEntry → Outcome (ℕ × Bool)
start_after o = o >>= λ e. done (e.swnd.start_sequence, e.sbuff_free 0)

abbrev text_read : Outcome (ℤ × Bytes × World) → Outcome (ℤ × Bytes)
text_read o = o >>= λ r. done (r.0, r.1)

ack_one : start_after (handle_ack one_queued 1 10) ≡ done (2, true)
unfolding handle_ack release_until release_seq init_entry
ack_one = refl

read_one : text_read (k_recvfrom true 7 (world_with unread) (pos 2) 509) ≡ done (pos 2, hello)
unfolding k_recvfrom scan scan_slot deliver strlen frame init_entry
read_one = refl

handle_ack-SenderIsValid_example :
    (e' : SharedMemoryEntry) × (handle_ack two_queued 1 5 ≡ done e')
    × SenderIsValid e' 1
    × (e'.swnd.start_sequence ≡ 2)
    × (e'.swnd.size ≡ 5)
    × (e'.last_ack_received ≡ 1)
    × (e'.rwnd ≡ two_queued.rwnd)
unfolding init_entry
handle_ack-SenderIsValid_example =
    handle_ack-SenderIsValid 0 5 two_queued-SenderIsValid (omega arith) (omega arith) (omega arith)

-- an ACK for number 9, of which nothing was sent
handle_ack-fault_example : handle_ack two_queued 9 5 ≡ fault
unfolding init_entry
handle_ack-fault_example =
    handle_ack-fault 8 5 two_queued-SenderIsValid (omega arith) (omega arith) (omega arith)
      (omega arith)

-- the sender after 255 messages, with number 1 queued again
abbrev wrapped : SharedMemoryEntry
wrapped = record one_queued { last_ack_received = 255 }

handle_acks_after_wrap_example :
    (e' : SharedMemoryEntry) × (handle_acks wrapped ((1, 10) ∷ (255, 4) ∷ []) ≡ done e')
    × (e'.sbuff_free ≡ wrapped.sbuff_free)
    × (e'.swnd.start_sequence ≡ 1)
    × (e'.swnd.index_seq_num ≡ wrapped.swnd.index_seq_num)
unfolding init_entry
handle_acks_after_wrap_example = handle_acks_after_wrap ((1, 10) ∷ (255, 4) ∷ []) wrapped refl refl

handle_data-ReceiverIsValid_example : EndsValid (handle_data mine first_frame)
unfolding frame
handle_data-ReceiverIsValid_example =
    handle_data-ReceiverIsValid first_frame mine-ReceiverIsValid (omega arith)

in_order-ReceiverIsValid_example :
    (e' : SharedMemoryEntry) × (j : ℕ) × (k : ℕ) × (in_order mine 1 first_frame
      ≡ done (e', repeat_ack mine 1 ++ ack_to_peer e' 1 ∷ []))
    × ReceiverIsValid e'
    × (find_from slots 0 mine.rbuff_free ≡ some j)
    × (e'.recv_buffer ≡ update mine.recv_buffer j first_frame)
    × (e'.rbuff_free ≡ update mine.rbuff_free j false)
    × (e'.last_ack_received ≡ 1)
    × (e'.is_free ≡ 0)
    × (e'.pid ≡ 7)
    × (e'.rwnd.valid_seq_num ≡ update mine.rwnd.valid_seq_num 1 false)
    × (e'.rwnd.start_sequence ≡ seq_at 1 k)
    × IsFirst 11 0 (λ i. e'.rwnd.valid_seq_num (seq_at 1 i)) k
unfolding frame init_entry
in_order-ReceiverIsValid_example =
    in_order-ReceiverIsValid first_frame mine-ReceiverIsValid refl refl

k_recvfrom_none_example :
    k_recvfrom true 7 (world_with mine) (pos 2) 509 ≡ done (minus_one, [], world_with mine)
unfolding init_entry
k_recvfrom_none_example =
    k_recvfrom_none 7 2 509 (world_with mine) (omega arith) (omega arith) (omega arith) refl
      mine-ReceiverIsValid (λ j p b. absurd (cc))

unread-Fits : (k : ℕ) → k < slots → unread.rbuff_free k ≡ false → Fits unread k 509
unfolding frame init_entry strlen
unread-Fits zero p b = (2, refl, omega arith)
unread-Fits (suc k) p b = absurd (ground arith)

k_recvfrom_least_example :
    (k : ℕ) × (m : ℕ) × (n : ℕ) × HoldsLeast unread m k
    × (strlen (drop 2 (unread.recv_buffer k)) ≡ some n)
    × (k_recvfrom true 7 (world_with unread) (pos 2) 509 ≡ (
        let text = take n (drop 2 (unread.recv_buffer k)) in
        done (pos (length text), text, put_entry (world_with unread) 2 (delivered unread k m))))
    × ReceiverIsValid (delivered unread k m)
unfolding init_entry
k_recvfrom_least_example =
    k_recvfrom_least 7 2 509 (world_with unread) (omega arith) (omega arith) (omega arith) refl
      unread-ReceiverIsValid 1 0 unread-Holds (omega arith) unread-Fits

mine-IsEmptied : IsEmptied mine
unfolding init_entry
mine-IsEmptied j p = refl

message_delivered_example :
    (u : World) × (arrive_and_read 7 2 509 (world_with mine) first_frame ≡ done (pos 2, hello, u))
unfolding init_entry
message_delivered_example =
    message_delivered 7 2 509 0 (world_with mine) hello [] (omega arith) (omega arith) (omega arith)
      refl mine-ReceiverIsValid mine-IsEmptied (omega arith) (omega arith) (omega arith)

-- the receiver that expects number 255
abbrev late : SharedMemoryEntry
late = record mine { rwnd = record (mine.rwnd) { start_sequence = 255 } }

late-ReceiverIsValid : ReceiverIsValid late
late-ReceiverIsValid =
    let v = mine-ReceiverIsValid in
    record {
      low = omega arith;
      high = omega arith;
      room = v.room;
      buffered = v.buffered;
      index = v.index;
    }

late-IsEmptied : IsEmptied late
unfolding init_entry
late-IsEmptied j p = refl

-- the peer has room for one message, and two are queued
abbrev narrow : SharedMemoryEntry
narrow = record two_queued { swnd = record (two_queued.swnd) { size = 1 } }

narrow-SenderIsValid : SenderIsValid narrow 2
narrow-SenderIsValid =
    let w = two_queued-SenderIsValid in
    record {
      low = w.low;
      high = w.high;
      upcoming = w.upcoming;
      used = w.used;
      slot = w.slot;
      distinct = w.distinct;
      empty = w.empty;
    }

send_new_lem_example :
    (e' : SharedMemoryEntry) × (sent : List Datagram) × (send_new 40 two_queued ≡ done (e', sent))
    × (length sent ≤ 10)
    × All (FromWindow two_queued 1 11) sent
unfolding init_entry
send_new_lem_example = send_new_lem 40 two_queued-SenderIsValid (omega arith)

-- number 1 is under way, number 2 was never sent
abbrev under_way : SharedMemoryEntry
under_way = transmit 38 narrow 0

under_way-SenderIsValid : SenderIsValid under_way 2
under_way-SenderIsValid =
    let w = narrow-SenderIsValid in
    record {
      low = w.low;
      high = w.high;
      upcoming = w.upcoming;
      used = w.used;
      slot = w.slot;
      distinct = w.distinct;
      empty = w.empty;
    }

under_way-sent : (i : ℕ) → i < 1 → unsent under_way (slot_at under_way (seq_at 1 i)) ≡ false
unfolding init_entry
under_way-sent zero p = refl
under_way-sent (suc i) p = absurd (omega arith)

k_socket_lem_example :
    k_socket true 9 (world_with mine) 3 ≡ done (claim_first 10 0 9 (world_with mine))
k_socket_lem_example = k_socket_lem 9 (world_with mine) 3 (omega arith)

k_close_lem_example :
    k_close 7 (world_with mine) (pos 2)
    ≡ done (pos 0, put_entry (world_with mine) 2 (release_entry mine))
k_close_lem_example =
    k_close_lem 7 2 (world_with mine) (omega arith) (omega arith) (omega arith) refl

local_ip : Bytes
local_ip = b'1' ∷ []

mine-only : (j : ℕ) → j < 10 → ((world_with mine).shared j).is_free ≡ 2 → j ≡ 2
unfolding init_entry
mine-only j p q = ground arith

k_bind_lem_example :
    (k_bind_request true true true (world_with mine) (pos 2) local_ip 5000 local_ip 6000 >>= λ r.
    serve_bind r.1 >>= λ v. k_bind_finish v 2)
    ≡ done (
      pos 0,
      row local_ip 5000 local_ip 6000 mine,
      put_entry (world_with mine) 2 (bound local_ip 5000 local_ip 6000 mine),
    )
k_bind_lem_example =
    k_bind_lem 2 5000 6000 local_ip local_ip (world_with mine) (omega arith) (omega arith) refl refl
      (omega arith) mine-only
