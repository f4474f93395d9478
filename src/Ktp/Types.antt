-- ===== src/Ktp/Types.antt =====
-- ksocket.h: constants, the shared memory entry of a socket, and what the processes share.
use cn_assignments.Base.{
  ℕ, ◌+◌, ◌-◌, ◌%◌, Bool, ◌||◌, ℤ, pos, is_negative, ltb_ℤ, ◌==◌, if◌then◌else◌, Bytes, get_or,
  replicate, Outcome, done, blocked, update,
}

abbrev pub sock_ktp : ℕ
sock_ktp = 3

-- `T`, in seconds
abbrev pub timeout : ℕ
timeout = 5

abbrev pub max_ktp_sockets : ℕ
max_ktp_sockets = 10

abbrev pub message_size : ℕ
message_size = 512

-- slots of each message buffer
abbrev pub slots : ℕ
slots = 10

pub record SenderWindow : Type 0 where
  pub index_seq_num : ℕ → ℤ  -- signed char[256]
  pub size : ℕ
  pub valid_seq_num : ℕ → Bool
  pub start_sequence : ℕ

pub record ReceiverWindow : Type 0 where
  pub index_seq_num : ℕ → ℤ
  pub size : ℤ
  pub valid_seq_num : ℕ → Bool
  pub start_sequence : ℕ

-- An IP address is the text before the NUL of its array.
pub record SharedMemoryEntry : Type 0 where
  pub is_free : ℕ
  pub pid : ℕ
  pub udp_socket : ℤ
  pub dest_ip : Bytes
  pub dest_port : ℕ
  pub src_ip : Bytes
  pub src_port : ℕ
  pub send_buffer : ℕ → Bytes  -- ten messages of 512 bytes
  pub sbuff_free : ℕ → Bool
  pub recv_buffer : ℕ → Bytes
  pub rbuff_free : ℕ → Bool
  pub swnd : SenderWindow
  pub rwnd : ReceiverWindow
  pub max_seq_number_yet : ℕ
  pub send_time : ℕ → ℤ
  pub last_ack_received : ℕ
  pub no_space_flags : Bool

-- a row of the socket table of one process
pub record KSocket : Type 0 where
  pub udp_socket : ℤ
  pub dest_ip : Bytes
  pub dest_port : ℕ
  pub src_ip : Bytes
  pub src_port : ℕ

-- The semaphores hold their values; `shared` is the array of the ten entries.
pub record World : Type 0 where
  pub sem_sm : ℕ
  pub sem1 : ℕ
  pub sem2 : ℕ
  pub shared : ℕ → SharedMemoryEntry

-- `sem_wait(sem_SM)`: at 0 the caller waits.
abbrev pub sem_wait : World → Outcome World
sem_wait w = if w.sem_sm == 0 then blocked else done (record w { sem_sm = w.sem_sm - 1 })

abbrev pub sem_post : World → World
sem_post w = record w { sem_sm = w.sem_sm + 1 }

-- `sockfd < 0 || sockfd >= MAX_KTP_SOCKETS`
abbrev pub bad_descriptor : ℤ → Bool
bad_descriptor fd = is_negative fd || ltb_ℤ (pos 9) fd

abbrev pub put_entry : World → ℕ → SharedMemoryEntry → World
put_entry w i e = record w { shared = update w.shared i e }

-- `recv_buffer[i][0]` and the like
abbrev pub byte_at : Bytes → ℕ → ℕ
byte_at b i = get_or b i 0

-- a buffer after `memset(…, 0, MESSAGE_SIZE)`; kept shut, since it is long
unfoldable pub zero_buffer : Bytes
zero_buffer = replicate message_size 0

-- the sequence number after `s`: they run from 1 to 255
abbrev pub next_seq : ℕ → ℕ
next_seq s = 1 + s % 255

-- a datagram that goes out through a socket of the system
pub record Datagram : Type 0 where
  pub socket : ℤ
  pub ip : Bytes
  pub port : ℕ
  pub payload : Bytes

abbrev pub to_peer : SharedMemoryEntry → Bytes → Datagram
to_peer e b = record { socket = e.udp_socket; ip = e.dest_ip; port = e.dest_port; payload = b }
