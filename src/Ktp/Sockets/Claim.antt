-- ===== src/Ktp/Sockets/Claim.antt =====
-- k_socket hands out the first free entry.
use cn_assignments.Base.{
  ℕ, zero, suc, ◌+◌, ◌-◌, ◌<◌, ◌≡◌, refl, ap, Bool, true, none, some, ℤ, pos, minus_one,
  if◌then◌else◌, [], done, arith, ◌==◌, find_from,
}
use cn_assignments.Ktp.Types.{SharedMemoryEntry, World, sock_ktp, max_ktp_sockets, put_entry}
use cn_assignments.Ktp.Sockets.{claim, claim_from, k_socket}

-- taking the lock and giving it back
pub relock : (w : World) → 0 < w.sem_sm → record w { sem_sm = w.sem_sm - 1 + 1 } ≡ w
relock w h = ap (λ n. record w { sem_sm = n }) (omega arith)

abbrev pub is_free_at : World → ℕ → Bool
is_free_at w i = (w.shared i).is_free == 1

-- an entry that is owned by the process `me`, has no addresses yet and room for ten messages
abbrev pub owned : ℕ → SharedMemoryEntry → SharedMemoryEntry
owned me e = record e {
  is_free = 0;
  pid = me;
  src_ip = [];
  src_port = 0;
  dest_ip = [];
  dest_port = 0;
  swnd = record (e.swnd) { size = 10 };
  rwnd = record (e.rwnd) { size = pos 10 };
}

-- What `k_socket` comes to: a search, and the claim of what it finds.
abbrev pub claim_first : ℕ → ℕ → ℕ → World → ℤ × World
claim_first n i me w = elim (find_from n i (is_free_at w)) [
  | none ↦ (minus_one, w)
  | some k ↦ (pos k, put_entry w k (owned me (w.shared k)))
]

claim_from-claim_first :
    (n i me : ℕ) (w : World) → 0 < w.sem_sm → claim_from n i me w ≡ done (claim_first n i me w)
unfolding claim_from claim find_from
claim_from-claim_first zero i me w h = refl
claim_from-claim_first (suc n) i me w h =
    ground (arith, relock w h, claim_from-claim_first n (i + 1) me w h)

-- With the lock free and the semaphore open, `k_socket` of the KTP type returns the least free
-- descriptor. That entry is then in use by the caller, without addresses and with both windows ten
-- messages wide, and nothing else changes. With no free entry, or for another type, `k_socket`
-- returns -1 and changes nothing.
pub k_socket_lem :
    (me : ℕ) (w : World) (type : ℕ)
    → 0 < w.sem_sm
    → k_socket true me w type
      ≡ done (if type == sock_ktp then claim_first max_ktp_sockets 0 me w else (minus_one, w))
unfolding k_socket
k_socket_lem me w type h = ground (arith, claim_from-claim_first max_ktp_sockets 0 me w h)
