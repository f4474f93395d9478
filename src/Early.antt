-- ===== src/Early.antt =====
-- Lab 4/ksocket.h, Lab 4/ksocket.c and Lab 4/initksocket.c: the first version of KTP.
pub mod Sends
pub mod Idle
mod EarlyExamples
use cn_assignments.Base.{
  ℕ, zero, suc, ◌+◌, ◌-◌, ◌%◌, Bool, true, false, not, ◌&&◌, Option, none, some, ℤ, pos, negsuc,
  minus_one, pos_part, is_negative, ltb, leb_ℤ, ◌||◌, ◌==◌, if◌then◌else◌, Bytes, List, [], ◌∷◌,
  ◌++◌, length, take, drop, get_or, replicate, Outcome, done, fault, ◌>>=◌, update, codes,
}

abbrev pub sock_ktp : ℕ
sock_ktp = 1

abbrev pub max_ktp_sockets : ℕ
max_ktp_sockets = 10

abbrev pub message_size : ℕ
message_size = 512

-- how many messages a buffer holds
abbrev pub slots : ℕ
slots = 10

-- an entry of `ksocket_table`
pub record KSocket : Type 0 where
  pub is_bound : Bool
  pub src_ip : Bytes
  pub src_port : ℕ
  pub dest_ip : Bytes
  pub dest_port : ℕ

pub record SenderWindow : Type 0 where
  pub seq_nums : ℕ → ℕ
  pub size : ℕ

-- The fields that some code uses; `send_buffer` is taken by the message.
pub record SharedMemoryEntry : Type 0 where
  pub is_free : Bool
  pub process_id : ℕ
  pub udp_socket : ℕ
  pub send_buffer : ℕ → Bytes
  pub swnd : SenderWindow

pub record Memory : Type 0 where
  pub ksocket_table : ℕ → KSocket
  pub shared_memory : ℕ → SharedMemoryEntry

-- `udp_sock` is what `socket` returned.
unfoldable pub k_socket : ℕ → ℤ → ℤ
k_socket type udp_sock =
    if not (type == sock_ktp)
    then minus_one
    else if is_negative udp_sock
    then minus_one
    else udp_sock

abbrev pub is_invalid : ℤ → Bool
is_invalid sockfd = is_negative sockfd || leb_ℤ (pos max_ktp_sockets) sockfd

-- `is_address` answers `inet_pton`, `bound` says whether `bind` succeeded.
unfoldable pub k_bind : (Bytes → Bool) → Bool → ℤ → Bytes → ℕ → Bytes → ℕ → Memory → ℤ × Memory
k_bind is_address bound sockfd src_ip src_port dest_ip dest_port m =
    if is_invalid sockfd
    then (minus_one, m)
    else if not (is_address src_ip)
    then (minus_one, m)
    else if not bound
    then (minus_one, m)
    else (
      pos 0,
      record m {
        ksocket_table = update m.ksocket_table (pos_part sockfd) (record {
          is_bound = true;
          src_ip = take 16 src_ip;
          src_port = src_port;
          dest_ip = take 16 dest_ip;
          dest_port = dest_port;
        });
      },
    )

-- A message stored behind those that are there; the eleventh falls outside both arrays.
unfoldable pub store : Bytes → SharedMemoryEntry → Outcome SharedMemoryEntry
store message entry =
    let seq_num = entry.swnd.size in
    if ltb seq_num slots
    then done (record entry {
      send_buffer =
          update entry.send_buffer seq_num
            (message ++ drop (length message) (entry.send_buffer seq_num));
      swnd = record {
        seq_nums = update entry.swnd.seq_nums seq_num seq_num;
        size = (seq_num + 1) % 256;
      };
    })
    else fault

abbrev pub put_entry : Memory → ℕ → SharedMemoryEntry → Memory
put_entry m i entry = record m { shared_memory = update m.shared_memory i entry }

-- `sent` is what `sendto` makes of the datagram.
unfoldable pub k_sendto : ℤ → ℤ → Bytes → Memory → Outcome (ℤ × Memory)
k_sendto sent sockfd message m =
    let i = pos_part sockfd in
    if is_invalid sockfd
    then done (minus_one, m)
    else if not (m.ksocket_table i).is_bound
    then done (minus_one, m)
    else if ltb message_size (length message)
    then done (minus_one, m)
    else store message (m.shared_memory i) >>= λ entry. done (sent, put_entry m i entry)

-- `input` is what `recvfrom` received, `dropped` what `dropMessage` decides: the bytes in the
-- caller's buffer, and the result.
unfoldable pub k_recvfrom : Option Bytes → Bool → ℕ → ℤ × Bytes
k_recvfrom none dropped capacity = (minus_one, [])
k_recvfrom (some b) dropped capacity =
    let written = take capacity b in (if dropped then minus_one else pos (length written), written)

-- `is_free` of every entry; the memory is new and holds zeros elsewhere
unfoldable pub init_ksocket : Memory
init_ksocket = record {
  ksocket_table =
      λ i. record { is_bound = false; src_ip = []; src_port = 0; dest_ip = []; dest_port = 0 };
  shared_memory = λ i. record {
    is_free = true;
    process_id = 0;
    udp_socket = 0;
    send_buffer = λ j. replicate message_size 0;
    swnd = record { seq_nums = λ j. 0; size = 0 };
  };
}

-- what a thread sends, by the socket that it sends it on
pub record Datagram : Type 0 where
  pub udp_socket : ℕ
  pub message : Bytes

-- Thread R on the entries `i`, ..., `i + n - 1`: `arrives` says what `recvfrom` yields on a socket that
-- is ready, `dropped` what `dropMessage` decides.
unfoldable pub acks_from : ℕ → ℕ → (ℕ → Option Bytes) → (ℕ → Bool) → Memory → List Datagram
acks_from zero i arrives dropped m = []
acks_from (suc n) i arrives dropped m =
    let entry = m.shared_memory i in
    let rest = acks_from n (i + 1) arrives dropped m in
    if entry.is_free then rest else elim (arrives i) [
      | none ↦ rest
      | some b ↦
          if not (length b == 0) && not (dropped i)
          then record { udp_socket = entry.udp_socket; message = codes "ACK" ++ get_or b 0 0 ∷ [] }
            ∷ rest
          else rest
    ]

unfoldable pub thread_r : (ℕ → Option Bytes) → (ℕ → Bool) → Memory → List Datagram
thread_r arrives dropped m = acks_from max_ktp_sockets 0 arrives dropped m

-- the loop over the window of an entry, from place `j` on
unfoldable pub resend : ℕ → ℕ → SharedMemoryEntry → List Datagram
resend zero j entry = []
resend (suc n) j entry =
    record { udp_socket = entry.udp_socket; message = entry.send_buffer (entry.swnd.seq_nums j) }
    ∷ resend n (j + 1) entry

-- Thread S on the entries `i`, ..., `i + n - 1`
unfoldable pub resend_from : ℕ → ℕ → Memory → List Datagram
resend_from zero i m = []
resend_from (suc n) i m =
    let entry = m.shared_memory i in
    let rest = resend_from n (i + 1) m in
    if entry.is_free then rest else resend entry.swnd.size 0 entry ++ rest

unfoldable pub thread_s : Memory → List Datagram
thread_s m = resend_from max_ktp_sockets 0 m

-- the loop of the garbage collector; `exists` answers `kill(pid, 0)`
unfoldable pub collect_from : ℕ → ℕ → (ℕ → Bool) → Memory → Memory
collect_from zero i exists m = m
collect_from (suc n) i exists m =
    let entry = m.shared_memory i in
    collect_from n (i + 1) exists (
      if not entry.is_free && not (exists entry.process_id)
      then put_entry m i (record entry { is_free = true })
      else m)

unfoldable pub garbage_collector : (ℕ → Bool) → Memory → Memory
garbage_collector exists m = collect_from max_ktp_sockets 0 exists m
