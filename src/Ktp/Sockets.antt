-- ===== src/Ktp/Sockets.antt =====
-- The table of sockets: k_socket, k_bind, k_close (ksocket.c), init_ksocket, the bind loop of main
-- and the garbage collector (initksocket.c).
pub mod Claim
pub mod Owner
pub mod Bind
pub mod Collect
pub mod Race
pub mod Reuse
use cn_assignments.Base.{
  ℕ, zero, suc, ◌+◌, ◌-◌, ◌%◌, Bool, true, false, not, ◌&&◌, ◌||◌, Option, none, some, ℤ, pos,
  minus_one, pos_part, is_negative, ltb, ltb_ℤ, leb, ◌==◌, if◌then◌else◌, Bytes, [], take, Outcome,
  done, blocked, fault, ◌>>=◌, update, find_from,
}
use cn_assignments.Ktp.Types.{
  sock_ktp, max_ktp_sockets, slots, SharedMemoryEntry, KSocket, World, sem_wait, sem_post,
  bad_descriptor, put_entry, zero_buffer,
}

-- One entry as `init_ksocket` leaves it; `fd` is what `socket` returned for it.
unfoldable pub init_entry : ℤ → SharedMemoryEntry
init_entry fd = record {
  is_free = 1;
  pid = 0;
  udp_socket = fd;
  dest_ip = [];
  dest_port = 0;
  src_ip = [];
  src_port = 0;
  send_buffer = λ _. zero_buffer;
  sbuff_free = λ _. true;
  recv_buffer = λ _. zero_buffer;
  rbuff_free = λ _. true;
  swnd = record {
    index_seq_num = λ _. minus_one;
    size = 10;
    valid_seq_num = λ _. true;
    start_sequence = 1;
  };
  rwnd = record {
    index_seq_num = λ _. minus_one;
    size = pos 10;
    valid_seq_num = λ _. true;
    start_sequence = 1;
  };
  max_seq_number_yet = 1;
  send_time = λ _. minus_one;
  last_ack_received = 0;
  no_space_flags = false;
}

-- The world after main has created the semaphores and `init_ksocket` the entries.
unfoldable pub init_ksocket : (ℕ → ℤ) → World
init_ksocket fds = record { sem_sm = 1; sem1 = 0; sem2 = 0; shared = λ i. init_entry (fds i) }

-- the fields that `k_socket` sets in a free entry
unfoldable pub claim : ℕ → SharedMemoryEntry → SharedMemoryEntry
claim me e = record e {
  is_free = 0;
  pid = me;
  src_ip = [];
  src_port = 0;
  dest_ip = [];
  dest_port = 0;
  swnd = record (e.swnd) { size = 10 };
  rwnd = record (e.rwnd) { size = pos 10 };
}

-- The loop of `k_socket`, from entry `i` with `n` entries left; it takes the lock for each.
unfoldable pub claim_from : ℕ → ℕ → ℕ → World → Outcome (ℤ × World)
unfolding claim
claim_from zero i me w = done (minus_one, w)
claim_from (suc n) i me w =
    let rest = λ (u : World). claim_from n (i + 1) me u in
    sem_wait w >>= λ v.
    if (v.shared i).is_free == 1
    then done (pos i, sem_post (put_entry v i (claim me (v.shared i))))
    else rest (sem_post v)

-- `opened` says whether `sem_open` succeeded, `me` is `getpid()`.
unfoldable pub k_socket : Bool → ℕ → World → ℕ → Outcome (ℤ × World)
unfolding claim_from
k_socket opened me w type =
    if not opened
    then done (minus_one, w)
    else if not (type == sock_ktp)
    then done (minus_one, w)
    else claim_from max_ktp_sockets 0 me w

-- the addresses, and the mark for the bind loop
unfoldable pub request_bind : Bytes → ℕ → Bytes → ℕ → SharedMemoryEntry → SharedMemoryEntry
request_bind src_ip src_port dest_ip dest_port e = record e {
  src_ip = take 15 src_ip;
  src_port = src_port;
  dest_ip = take 15 dest_ip;
  dest_port = dest_port;
  is_free = 2;
}

-- Where `k_bind` stands after its first part: it has returned, or waits for `sem1`.
pub data BindState : Type 0 where
  returned : ℤ → BindState
  waiting : ℕ → BindState

-- `k_bind` up to its wait for `sem1`; the flags say which `sem_open` succeeded. If the last one
-- fails the result is EXIT_FAILURE, 1. A free entry makes it return with the lock still held.
unfoldable pub k_bind_request :
    Bool → Bool → Bool → World → ℤ → Bytes → ℕ → Bytes → ℕ → Outcome (BindState × World)
unfolding request_bind
k_bind_request opened1 opened2 opened_sm w sockfd src_ip src_port dest_ip dest_port =
    if not (opened1 && opened2)
    then done (returned minus_one, w)
    else if not opened_sm
    then done (returned (pos 1), w)
    else if bad_descriptor sockfd
    then done (returned minus_one, w)
    else sem_wait w >>= λ v.
        let fd = pos_part sockfd in
        let e = v.shared fd in
        if e.is_free == 1
        then done (returned minus_one, v)
        else let u = sem_post (put_entry v fd (request_bind src_ip src_port dest_ip dest_port e)) in
          done (waiting fd, record u { sem2 = u.sem2 + 1 })

-- the row that `k_bind` copies out of an entry
unfoldable pub socket_row : SharedMemoryEntry → KSocket
socket_row e = record {
  udp_socket = e.udp_socket;
  dest_ip = take 15 e.dest_ip;
  dest_port = e.dest_port;
  src_ip = take 15 e.src_ip;
  src_port = e.src_port;
}

-- The rest of `k_bind`: it waits for `sem1` and copies the entry into the table of the process.
unfoldable pub k_bind_finish : World → ℕ → Outcome (ℤ × KSocket × World)
unfolding socket_row
k_bind_finish w fd =
    if w.sem1 == 0
    then blocked
    else sem_wait (record w { sem1 = w.sem1 - 1 }) >>= λ v.
        done (pos 0, socket_row (v.shared fd), sem_post v)

-- the entries that wait for the bind loop
abbrev pub wants_bind : World → ℕ → Bool
wants_bind w i = (w.shared i).is_free == 2

-- One turn of the loop at the end of main: it serves the first entry marked 2, and posts `sem1`.
-- `bind` may fail: the entry is marked bound all the same.
unfoldable pub serve_bind : World → Outcome World
serve_bind w =
    if w.sem2 == 0
    then blocked
    else let v = record w { sem2 = w.sem2 - 1 } in
      elim (find_from 10 0 (wants_bind v)) [
        | none ↦ done (record v { sem1 = v.sem1 + 1 })
        | some i ↦ sem_wait v >>= λ u.
            let t = sem_post (put_entry u i (record (u.shared i) { is_free = 0 })) in
            done (record t { sem1 = t.sem1 + 1 })
      ]

-- what `k_close` and the garbage collector do to an entry
abbrev pub release_entry : SharedMemoryEntry → SharedMemoryEntry
release_entry e = record e { is_free = 1; pid = 0 }

unfoldable pub k_close : ℕ → World → ℤ → Outcome (ℤ × World)
k_close me w sockfd =
    if bad_descriptor sockfd
    then done (minus_one, w)
    else sem_wait w >>= λ v.
        let fd = pos_part sockfd in
        let e = v.shared fd in
        if e.is_free == 1
        then done (minus_one, sem_post v)
        else if not (e.pid == me)
        then done (minus_one, sem_post v)
        else done (pos 0, sem_post (put_entry v fd (release_entry e)))

-- one entry under the collector; `alive` answers `kill(pid, 0)`
unfoldable pub collect : (ℕ → Bool) → SharedMemoryEntry → SharedMemoryEntry
collect alive e = if e.is_free == 1 then e else if not (alive e.pid) then release_entry e else e

-- One pass of `garbage_collector`: the loop runs over the ten entries.
unfoldable pub collect_from : ℕ → ℕ → (ℕ → Bool) → World → World
unfolding collect
collect_from zero i alive w = w
collect_from (suc n) i alive w =
    collect_from n (i + 1) alive (put_entry w i (collect alive (w.shared i)))

unfoldable pub garbage_collector : (ℕ → Bool) → World → Outcome World
unfolding collect_from
garbage_collector alive w =
    sem_wait w >>= λ v. done (sem_post (collect_from max_ktp_sockets 0 alive v))
