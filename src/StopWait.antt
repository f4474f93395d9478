-- ===== src/StopWait.antt =====
-- Lab 4/asg4/ksocket.c: the KTP calls as a stop-and-wait protocol within one process.
pub mod Users
pub mod Sending
pub mod Rounds
pub mod Receiving
pub mod Transmissions
pub mod Steps
pub mod Transfer
pub mod Closing
mod StopWaitExamples
use cn_assignments.Base.{
  ℕ, zero, suc, ◌+◌, ◌-◌, ◌*◌, ◌/◌, ◌%◌, Bool, true, false, not, ◌&&◌, ◌||◌, Option, none, some, ℤ,
  pos, negsuc, minus_one, pos_part, is_negative, ltb, leb, ltb_ℤ, leb_ℤ, ◌==◌, if◌then◌else◌, Bytes,
  List, [], ◌∷◌, ◌++◌, length, take, drop, get_or, Outcome, done, blocked, fault, update, codes,
  starts_with,
}

abbrev pub sock_ktp : ℕ
sock_ktp = 1

abbrev pub max_ktp_sockets : ℕ
max_ktp_sockets = 10

abbrev pub message_size : ℕ
message_size = 512

-- the message size less the four bytes of the header
abbrev pub payload_size : ℕ
payload_size = 508

abbrev pub frame_data : ℕ
frame_data = 0

abbrev pub frame_ack : ℕ
frame_ack = 1

-- The addresses are the texts before the NUL of their arrays.
pub record KSocket : Type 0 where
  pub is_bound : Bool
  pub src_ip : Bytes
  pub src_port : ℕ
  pub dest_ip : Bytes
  pub dest_port : ℕ
  pub next_seq : ℕ

-- `ksocket_table`
abbrev pub Table : Type 0
Table = ℕ → KSocket

-- `FrameHeader`, packed: type, number and the length with its low byte first
abbrev pub frame_header : ℕ → ℕ → ℕ → Bytes
frame_header type seq length = type ∷ seq ∷ (length % 256) ∷ (length / 256 % 256) ∷ []

-- `sockfd < 0 || sockfd >= MAX_KTP_SOCKETS`
abbrev pub is_invalid : ℤ → Bool
is_invalid sockfd = is_negative sockfd || leb_ℤ (pos max_ktp_sockets) sockfd

-- `udp_sock` is what `socket` returned. A descriptor outside the table is returned all the same.
unfoldable pub k_socket : ℕ → ℤ → Table → ℤ × Table
k_socket type udp_sock table =
    if not (type == sock_ktp)
    then (minus_one, table)
    else if is_negative udp_sock
    then (minus_one, table)
    else let i = pos_part udp_sock in
      (
        udp_sock,
        if ltb i max_ktp_sockets
            then update table i (record (table i) { next_seq = 0; is_bound = false })
            else table,
      )

-- `is_address` answers `inet_pton`, `bound` says whether `bind` succeeded.
unfoldable pub k_bind : (Bytes → Bool) → Bool → ℤ → Bytes → ℕ → Bytes → ℕ → Table → ℤ × Table
k_bind is_address bound sockfd src_ip src_port dest_ip dest_port table =
    if is_invalid sockfd
    then (minus_one, table)
    else if not (is_address src_ip)
    then (minus_one, table)
    else if not bound
    then (minus_one, table)
    else let i = pos_part sockfd in
      (
        pos 0,
        update table i (record (table i) {
          is_bound = true;
          src_ip = take 16 src_ip;
          src_port = src_port;
          dest_ip = take 16 dest_ip;
          dest_port = dest_port;
        }),
      )

-- what `select` and `recvfrom` make of the wait for an ACK
pub data Reply : Type 0 where
  timed_out : Reply
  select_failed : Reply
  receive_failed : Reply
  received : Bytes → Reply

-- what the system does in one round of the loop of `k_sendto`
pub record Round : Type 0 where
  pub is_sent : Bool
  pub reply : Reply

-- The control messages of the programs, which are sent as they are.
unfoldable pub is_control : Bytes → Bool
is_control message =
    ((length message == 4) && starts_with (codes "EOF") message)
    || (leb 7 (length message) && starts_with (codes "EOF_ACK") message)
    || ((length message == 3) && starts_with (codes "FIN") message)
    || (leb 7 (length message) && starts_with (codes "FIN_ACK") message)

abbrev pub is_ack_frame : Bytes → Bool
is_ack_frame message = (length message == 7) && (get_or message 0 0 == frame_ack)

abbrev pub data_frame : ℕ → Bytes → Bytes
data_frame seq message = frame_header frame_data seq (length message) ++ message

abbrev pub is_ack_for : ℕ → Bytes → Bool
is_ack_for seq b = leb 4 (length b) && (get_or b 0 0 == frame_ack) && (get_or b 1 0 == seq)

-- how a round ends: not sent, sent without an answer for an error, to be sent again, or acknowledged
pub data Ending : Type 0 where
  unsent : Ending
  broken : Ending
  again : Ending
  acked : Ending

unfoldable pub ending : ℕ → Round → Ending
ending seq r = if not r.is_sent then unsent else elim r.reply [
  | timed_out ↦ again
  | select_failed ↦ broken
  | receive_failed ↦ again
  | received b ↦ if is_ack_for seq b then acked else again
]

-- How the loop ends, with the frames it has sent: acknowledged, with an error, or not yet, when the
-- rounds are used up.
pub data Loop : Type 0 where
  finished : List Bytes → Loop
  failed : List Bytes → Loop
  waiting : List Bytes → Loop

abbrev pub sent_before : Bytes → Loop → Loop
sent_before frame (finished fs) = finished (frame ∷ fs)
sent_before frame (failed fs) = failed (frame ∷ fs)
sent_before frame (waiting fs) = waiting (frame ∷ fs)

-- The loop of `k_sendto`, on what the system does in each round.
unfoldable pub send_until : ℕ → Bytes → List Round → Loop
send_until seq frame [] = waiting []
send_until seq frame (r ∷ rounds) = elim (ending seq r) [
  | unsent ↦ failed []
  | broken ↦ failed (frame ∷ [])
  | again ↦ sent_before frame (send_until seq frame rounds)
  | acked ↦ finished (frame ∷ [])
]

-- what a call comes to: a result, the table and the datagrams, or still in the loop
pub data Call : Type 0 where
  returned : ℤ → Table → List Bytes → Call
  still_sending : List Bytes → Call

-- the end of `k_sendto` for a data message
unfoldable pub send_data : ℕ → Bytes → List Round → Table → Call
send_data i message rounds table =
    let ks = table i in
    elim (send_until ks.next_seq (data_frame ks.next_seq message) rounds) [
      | finished fs ↦
          returned (pos (length message))
            (update table i (record ks { next_seq = (ks.next_seq + 1) % 256 })) fs
      | failed fs ↦ returned minus_one table fs
      | waiting fs ↦ still_sending fs
    ]

-- `is_sent` says whether the send of a control message succeeds; a data message meets `rounds`.
unfoldable pub k_sendto : (Bytes → Bool) → Bool → List Round → ℤ → Bytes → Table → Call
k_sendto is_address is_sent rounds sockfd message table =
    let i = pos_part sockfd in
    if is_invalid sockfd
    then returned minus_one table []
    else if not (table i).is_bound
    then returned minus_one table []
    else if not (is_address (table i).dest_ip)
    then returned minus_one table []
    else if is_control message || is_ack_frame message
    then (if is_sent
        then returned (pos (length message)) table (message ∷ [])
        else returned minus_one table [])
    else if ltb payload_size (length message)
    then returned minus_one table []
    else send_data i message rounds table

abbrev pub ack_for : ℕ → Bytes
ack_for seq = frame_header frame_ack seq 3 ++ codes "ACK"

-- what `k_recvfrom` returns, writes to the caller's buffer, and sends
pub record Delivery : Type 0 where
  pub value : ℤ
  pub written : Bytes
  pub sent : List Bytes

abbrev pub nothing : Delivery
nothing = record { value = minus_one; written = []; sent = [] }

-- a datagram handed over as it is
abbrev pub forward : ℕ → Bytes → Delivery
forward capacity b = record {
  value = pos (length (take capacity b));
  written = take capacity b;
  sent = [];
}

-- a data frame: the ACK, and the payload by the length in the header; it is read from the array of
-- 512 bytes, which behind the datagram holds `stale` ones
unfoldable pub deliver : (Bytes → Bool) → ℕ → Table → Bytes → Bytes → ℕ → Outcome Delivery
deliver is_address i table b stale capacity =
    let announced = get_or b 2 0 + 256 * get_or b 3 0 in
    let n = if ltb capacity announced then capacity else announced in
    if not (ltb i max_ktp_sockets)
    then fault
    else if ltb message_size (4 + n)
    then fault
    else done (record {
      value = pos n;
      written = take n (drop 4 (b ++ stale));
      sent = if is_address (table i).dest_ip then ack_for (get_or b 1 0) ∷ [] else [];
    })

-- `input` is what `recvfrom` received, `dropped` what `dropMessage` decides. Nothing checks the
-- descriptor.
unfoldable pub k_recvfrom :
    (Bytes → Bool) → ℕ → Table → Option Bytes → Bool → Bytes → ℕ → Outcome Delivery
k_recvfrom is_address i table input dropped stale capacity = elim input [
  | none ↦ done nothing
  | some b ↦
      if leb 3 (length b)
        && (starts_with (codes "EOF") b
            || starts_with (codes "EOF_ACK") b
            || starts_with (codes "FIN") b
            || starts_with (codes "FIN_ACK") b)
      then done (forward capacity b)
      else if dropped
      then done nothing
      else if ltb (length b) 4
      then done nothing
      else if not (get_or b 0 0 == frame_data)
      then done (forward capacity b)
      else deliver is_address i table b stale capacity
]
