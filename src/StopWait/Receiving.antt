-- ===== src/StopWait/Receiving.antt =====
-- Lab 4/asg4/ksocket.c and user2.c: what a data frame does to the receiver.
use cn_assignments.Base.{
  IsNoEnd, IsNoEnd-starts_with, ℕ, ◌+◌, ◌*◌, ◌/◌, ◌%◌, ◌≤◌, ◌<◌, ◌≡◌, ap, ◌∙◌, arith, Bool, true,
  false, not, some, pos, ltb, if◌then◌else◌, Bytes, [], ◌∷◌, ◌++◌, length, take, drop, take-append,
  Outcome, done, fault, ◌>>=◌, starts_with,
}
use cn_assignments.StopWait.{
  Table, max_ktp_sockets, message_size, payload_size, data_frame, ack_for, Delivery, nothing,
  deliver, k_recvfrom,
}
use cn_assignments.StopWait.Users.{Receiver, take_delivery, receive_turn}

header_length : (n : ℕ) → n ≤ 508 → n % 256 + 256 * (n / 256 % 256) ≡ n
header_length n h = omega arith

-- what a data frame comes to when it is not dropped
abbrev pub arrival : ℕ → Bytes → Delivery
arrival seq chunk = record { value = pos (length chunk); written = chunk; sent = ack_for seq ∷ [] }

-- deliver, on the length that the header announces
abbrev announced_as : (Bytes → Bool) → ℕ → Table → ℕ → Bytes → Bytes → ℕ → ℕ → Outcome Delivery
announced_as is_address i table seq payload stale capacity announced =
    let n = if ltb capacity announced then capacity else announced in
    if not (ltb i max_ktp_sockets)
    then fault
    else if ltb message_size (4 + n)
    then fault
    else done (record {
      value = pos n;
      written = take n (payload ++ stale);
      sent = if is_address (table i).dest_ip then ack_for seq ∷ [] else [];
    })

announced_as-arrival :
    (is_address : Bytes → Bool) (i seq capacity : ℕ) (table : Table) (chunk stale : Bytes)
    → i < max_ktp_sockets
    → is_address (table i).dest_ip ≡ true
    → length chunk ≤ payload_size
    → length chunk ≤ capacity
    → announced_as is_address i table seq chunk stale capacity (length chunk)
      ≡ done (arrival seq chunk)
announced_as-arrival is_address i seq capacity table chunk stale open_ a short room =
    let t = take-append chunk stale in ground arith

-- A data frame that is not dropped and fits the caller's buffer is delivered whole, and acknowledged under its own number.
pub k_recvfrom-data_frame :
    (is_address : Bytes → Bool) (i seq capacity : ℕ) (table : Table) (chunk stale : Bytes)
    → i < max_ktp_sockets
    → is_address (table i).dest_ip ≡ true
    → length chunk ≤ payload_size
    → length chunk ≤ capacity
    → k_recvfrom is_address i table (some (data_frame seq chunk)) false stale capacity
      ≡ done (arrival seq chunk)
unfolding k_recvfrom deliver starts_with
k_recvfrom-data_frame is_address i seq capacity table chunk stale open_ a short room =
    let e =
      ap (announced_as is_address i table seq chunk stale capacity)
        (header_length (length chunk) short)
      ∙ announced_as-arrival is_address i seq capacity table chunk stale open_ a short room in
    ground arith

-- One that is dropped changes nothing.
pub k_recvfrom-dropped :
    (is_address : Bytes → Bool) (i seq : ℕ) (table : Table) (chunk stale : Bytes)
    → k_recvfrom is_address i table (some (data_frame seq chunk)) true stale message_size
      ≡ done nothing
unfolding k_recvfrom starts_with
k_recvfrom-dropped is_address i seq table chunk stale = ground arith

-- the receiver after a chunk
abbrev pub with_chunk : ℕ → Bytes → Receiver → Receiver
with_chunk seq chunk r = record r {
  file = r.file ++ chunk;
  buffer = chunk ++ drop (length chunk) r.buffer;
  sent = r.sent ++ ack_for seq ∷ [];
}

take_delivery-arrival :
    (seq : ℕ) (chunk : Bytes) (r : Receiver)
    → IsNoEnd chunk
    → take_delivery r (arrival seq chunk) ≡ with_chunk seq chunk r
unfolding take_delivery
take_delivery-arrival seq chunk r h =
    let x = IsNoEnd-starts_with chunk (drop (length chunk) r.buffer) h in
    let t = take-append chunk (drop (length chunk) r.buffer) in ground arith

pub receive_turn-with_chunk :
    (is_address : Bytes → Bool) (i seq : ℕ) (table : Table) (chunk stale : Bytes) (r : Receiver)
    → i < max_ktp_sockets
    → is_address (table i).dest_ip ≡ true
    → length chunk ≤ payload_size
    → IsNoEnd chunk
    → r.is_ended ≡ false
    → receive_turn is_address i table (some (data_frame seq chunk)) false stale r
      ≡ done (with_chunk seq chunk r)
unfolding receive_turn
receive_turn-with_chunk is_address i seq table chunk stale r open_ a short h e =
    let d =
      k_recvfrom-data_frame is_address i seq message_size table chunk stale open_ a short
        (omega arith) in
    let t = take_delivery-arrival seq chunk r h in
    let c = ap (λ (o : Outcome Delivery). o >>= λ d. done (take_delivery r d)) d in ground arith

pub receive_turn-dropped :
    (is_address : Bytes → Bool) (i seq : ℕ) (table : Table) (chunk stale : Bytes) (r : Receiver)
    → r.is_ended ≡ false
    → receive_turn is_address i table (some (data_frame seq chunk)) true stale r
      ≡ done (record r { sent = r.sent ++ [] })
unfolding receive_turn take_delivery
receive_turn-dropped is_address i seq table chunk stale r e =
    let c =
      ap (λ (o : Outcome Delivery). o >>= λ d. done (take_delivery r d))
        (k_recvfrom-dropped is_address i seq table chunk stale) in
    ground arith
