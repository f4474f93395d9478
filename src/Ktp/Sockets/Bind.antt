-- ===== src/Ktp/Sockets/Bind.antt =====
-- The hand-shake of k_bind with the bind loop, and the lock that a refused k_bind keeps.
use cn_assignments.Base.{
  ℕ, zero, suc, ap, ap₂, [], ◌∷◌, take, ◌<◌, ◌≡◌, ◌≢◌, refl, Bool, true, some, pos, minus_one,
  Bytes, done, blocked, ◌>>=◌, arith, find_from-only, update_twice, find_from,
}
use cn_assignments.Ktp.Types.{World, KSocket, SharedMemoryEntry, put_entry, sock_ktp}
use cn_assignments.Ktp.Sockets.{
  returned, request_bind, k_bind_request, serve_bind, k_bind_finish, wants_bind, k_socket, k_close,
  garbage_collector, socket_row,
}
use cn_assignments.Ktp.Send.{k_sendto}
use cn_assignments.Ktp.Receive.{k_recvfrom}
use cn_assignments.Ktp.Threads.{thread_s}

-- k_bind refuses a free descriptor with -1, but returns with the lock held: from then on k_socket,
-- k_sendto, k_recvfrom and k_close of any process, the collector and thread S wait for ever.
pub k_bind_keeps_lock :
    (fd port1 port2 me now capacity : ℕ) (ip1 ip2 stack message : Bytes) (alive : ℕ → Bool)
    (w : World)
    → fd < 10
    → w.sem_sm ≡ 1
    → (w.shared fd).is_free ≡ 1
    → (v : World) × (k_bind_request true true true w (pos fd) ip1 port1 ip2 port2
        ≡ done (returned minus_one, v))
      × (k_socket true me v sock_ktp ≡ blocked)
      × (k_sendto true me stack v (pos fd) message ≡ blocked)
      × (k_recvfrom true me v (pos fd) capacity ≡ blocked)
      × (k_close me v (pos fd) ≡ blocked)
      × (garbage_collector alive v ≡ blocked)
      × (thread_s now v ≡ blocked)
unfolding k_bind_request k_socket k_sendto k_recvfrom k_close garbage_collector thread_s
k_bind_keeps_lock fd port1 port2 me now capacity ip1 ip2 stack message alive w h one free = (
  record w { sem_sm = 0 },
  ground arith,
  refl,
  ground arith,
  ground arith,
  ground arith,
  refl,
  refl,
)

-- the entry that a completed k_bind leaves
abbrev pub bound : Bytes → ℕ → Bytes → ℕ → SharedMemoryEntry → SharedMemoryEntry
bound src_ip src_port dest_ip dest_port e = record e {
  is_free = 0;
  src_ip = take 15 src_ip;
  src_port = src_port;
  dest_ip = take 15 dest_ip;
  dest_port = dest_port;
}

take-take : (n : ℕ) (b : Bytes) → take n (take n b) ≡ take n b
take-take zero b = refl
take-take (suc n) [] = refl
take-take (suc n) (c ∷ b) = ap (λ t. c ∷ t) (take-take n b)

-- the row of the caller's table for an entry with these addresses
abbrev pub row : Bytes → ℕ → Bytes → ℕ → SharedMemoryEntry → KSocket
row src_ip src_port dest_ip dest_port e = record {
  udp_socket = e.udp_socket;
  dest_ip = take 15 dest_ip;
  dest_port = dest_port;
  src_ip = take 15 src_ip;
  src_port = src_port;
}

row-socket_row :
    (src_ip : Bytes) (src_port : ℕ) (dest_ip : Bytes) (dest_port : ℕ) (e : SharedMemoryEntry)
    → socket_row (bound src_ip src_port dest_ip dest_port e)
      ≡ row src_ip src_port dest_ip dest_port e
unfolding socket_row
row-socket_row src_ip src_port dest_ip dest_port e =
    ap₂
      (λ (a b : Bytes). record {
        udp_socket = e.udp_socket;
        dest_ip = a;
        dest_port = dest_port;
        src_ip = b;
        src_port = src_port;
      })
      (take-take 15 dest_ip) (take-take 15 src_ip)

wants_bind-only :
    (fd : ℕ) (w : World) (m : SharedMemoryEntry)
    → fd < 10
    → m.is_free ≡ 2
    → ((j : ℕ) → j < 10 → (w.shared j).is_free ≡ 2 → j ≡ fd)
    → find_from 10 0 (wants_bind (put_entry w fd m)) ≡ some fd
wants_bind-only fd w m h marked only =
    find_from-only 10 fd (wants_bind (put_entry w fd m)) h (ground arith)
      (λ j p q. ground (arith, only j))

-- With no other request pending, k_bind, one turn of the bind loop and the rest of k_bind together
-- bind the socket: the call returns 0, the entry and the row of the caller's table hold the addresses
-- and ports, the addresses cut to 15 bytes, the entry is marked bound, all semaphores and all other entries are as before.
pub k_bind_lem :
    (fd src_port dest_port : ℕ) (src_ip dest_ip : Bytes) (w : World)
    → fd < 10
    → 0 < w.sem_sm
    → w.sem1 ≡ 0
    → w.sem2 ≡ 0
    → (w.shared fd).is_free ≢ 1
    → ((j : ℕ) → j < 10 → (w.shared j).is_free ≡ 2 → j ≡ fd)
    → (k_bind_request true true true w (pos fd) src_ip src_port dest_ip dest_port >>= λ r.
        serve_bind r.1 >>= λ v. k_bind_finish v fd)
      ≡ done (
        pos 0,
        row src_ip src_port dest_ip dest_port (w.shared fd),
        put_entry w fd (bound src_ip src_port dest_ip dest_port (w.shared fd)),
      )
unfolding k_bind_request request_bind serve_bind k_bind_finish
k_bind_lem fd src_port dest_port src_ip dest_ip w h l s1 s2 used only =
    let m = request_bind src_ip src_port dest_ip dest_port (w.shared fd) in
    ground (
      arith,
      wants_bind-only fd w m h refl only,
      update_twice w.shared fd m (record m { is_free = 0 }),
      row-socket_row src_ip src_port dest_ip dest_port (w.shared fd),
    )
