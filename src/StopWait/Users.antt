-- ===== src/StopWait/Users.antt =====
-- Lab 4/asg4/user1.c and user2.c: a file sent in pieces, and written as it arrives.
use cn_assignments.Base.{
  ℕ, Bool, true, false, ◌||◌, Option, some, ℤ, pos_part, is_negative, if◌then◌else◌, Bytes, List,
  [], ◌∷◌, ◌++◌, length, take, drop, Outcome, done, ◌>>=◌, codes, starts_with, freads,
}
use cn_assignments.StopWait.{
  Table, Round, returned, still_sending, k_sendto, k_recvfrom, Delivery, payload_size, message_size,
  is_control, is_ack_frame, data_frame, Reply, timed_out, received,
}

-- the pieces of the file, whose number is at most `n`
abbrev pub pieces : ℕ → Bytes → List Bytes
pieces n file = freads payload_size n file

-- user2: the file, the array that `k_recvfrom` writes to, whether its loop has ended, and what it has
-- sent
pub record Receiver : Type 0 where
  pub file : Bytes
  pub buffer : Bytes
  pub is_ended : Bool
  pub sent : List Bytes

-- The body of the loop of user2 after `k_recvfrom`. The test for the end looks at the array, which
-- behind the bytes received holds those of earlier calls.
unfoldable pub take_delivery : Receiver → Delivery → Receiver
take_delivery r d =
    let buffer = d.written ++ drop (length d.written) r.buffer in
    if is_negative d.value
    then record r { sent = r.sent ++ d.sent }
    else if starts_with (codes "EOF") buffer
    then record r {
      buffer = buffer;
      is_ended = true;
      sent = r.sent ++ d.sent ++ (codes "EOF_ACK\0" ∷ []);
    }
    else record r {
      file = r.file ++ take (pos_part d.value) buffer;
      buffer = buffer;
      sent = r.sent ++ d.sent;
    }

-- One turn of the loop of user2, on the socket `i`.
unfoldable pub receive_turn :
    (Bytes → Bool) → ℕ → Table → Option Bytes → Bool → Bytes → Receiver → Outcome Receiver
receive_turn is_address i table input dropped stale r =
    if r.is_ended
    then done r
    else k_recvfrom is_address i table input dropped stale message_size >>= λ d.
        done (take_delivery r d)

-- What becomes of one transmission: lost on the way, dropped by the receiver, received with its ACK
-- lost, or received and acknowledged.
pub data Event : Type 0 where
  lost : Event
  dropped : Event
  ack_lost : Event
  acknowledged : Event

-- the ACK that user2 sends for a frame it has taken
abbrev pub new_reply : Receiver → Receiver → Reply
new_reply before after = elim (drop (length before.sent) after.sent) [
  | [] ↦ timed_out
  | b ∷ bs ↦ received b
]

-- user2's side of an event, and what the sender then sees
unfoldable pub respond :
    (Bytes → Bool) → ℕ → Table → Bytes → Bytes → Event → Receiver → Outcome (Receiver × Reply)
respond is_address i table stale frame lost r = done (r, timed_out)
respond is_address i table stale frame dropped r =
    receive_turn is_address i table (some frame) true stale r >>= λ q. done (q, timed_out)
respond is_address i table stale frame ack_lost r =
    receive_turn is_address i table (some frame) false stale r >>= λ q. done (q, timed_out)
respond is_address i table stale frame acknowledged r =
    receive_turn is_address i table (some frame) false stale r >>= λ q. done (q, new_reply r q)

-- all transmissions of one frame
unfoldable pub respond_all :
    (Bytes → Bool)
    → ℕ
    → Table
    → Bytes
    → Bytes
    → List Event
    → Receiver
    → Outcome (Receiver × List Round)
respond_all is_address i table stale frame [] r = done (r, [])
respond_all is_address i table stale frame (e ∷ events) r =
    respond is_address i table stale frame e r >>= λ p.
    respond_all is_address i table stale frame events p.0 >>= λ q.
    done (q.0, record { is_sent = true; reply = p.1 } ∷ q.1)

-- the datagram that `k_sendto` makes of a message
unfoldable pub datagram : ℕ → Bytes → Bytes
datagram seq message =
    if is_control message || is_ack_frame message then message else data_frame seq message

-- how the loop of user1 ends: with all pieces sent, with an error, or inside `k_sendto`
pub data Transfer : Type 0 where
  completed : Table → Receiver → Transfer
  stopped : Receiver → Transfer
  unfinished : Receiver → Transfer

-- The loop of user1 over the pieces of the file, together with user2 on its socket `j`; beside each
-- piece stands what becomes of its transmissions.
unfoldable pub transfer :
    (Bytes → Bool)
    → ℤ
    → ℕ
    → Table
    → Bytes
    → List (Bytes × List Event)
    → Table
    → Receiver
    → Outcome Transfer
transfer is_address sockfd j partner stale [] table r = done (completed table r)
transfer is_address sockfd j partner stale ((piece, events) ∷ rest) table r =
    respond_all is_address j partner stale (datagram (table (pos_part sockfd)).next_seq piece)
      events r
    >>= λ p. elim (k_sendto is_address true p.1 sockfd piece table) [
      | returned value table' fs ↦ elim (is_negative value) [
        | true ↦ done (stopped p.0)
        | false ↦ transfer is_address sockfd j partner stale rest table' p.0
      ]
      | still_sending fs ↦ done (unfinished p.0)
    ]
