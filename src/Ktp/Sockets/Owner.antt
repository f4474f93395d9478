-- ===== src/Ktp/Sockets/Owner.antt =====
-- A socket serves the process that owns it, and no other.
use cn_assignments.Base.{ℕ, ◌<◌, ◌≡◌, ◌≢◌, true, pos, minus_one, Bytes, [], done, arith}
use cn_assignments.Ktp.Types.{World, put_entry}
use cn_assignments.Ktp.Sockets.{k_close, release_entry}
use cn_assignments.Ktp.Sockets.Claim.{relock}
use cn_assignments.Ktp.Send.{k_sendto}
use cn_assignments.Ktp.Receive.{k_recvfrom}

-- On a socket that another process owns, k_sendto, k_recvfrom and k_close return -1 and leave the
-- shared memory and the lock as they were.
pub foreign_socket :
    (me fd capacity : ℕ) (stack message : Bytes) (w : World)
    → fd < 10
    → 0 < w.sem_sm
    → (w.shared fd).pid ≢ me
    → (k_sendto true me stack w (pos fd) message ≡ done (minus_one, w))
      × (k_recvfrom true me w (pos fd) capacity ≡ done (minus_one, [], w))
      × (k_close me w (pos fd) ≡ done (minus_one, w))
unfolding k_sendto k_recvfrom k_close
foreign_socket me fd capacity stack message w h l p =
    (ground (arith, relock w l), ground (arith, relock w l), ground (arith, relock w l))

-- The owner of a socket in use closes it: the entry is free, without owner, and no other entry and
-- no other field changes.
pub k_close_lem :
    (me fd : ℕ) (w : World)
    → fd < 10
    → 0 < w.sem_sm
    → (w.shared fd).is_free ≢ 1
    → (w.shared fd).pid ≡ me
    → k_close me w (pos fd) ≡ done (pos 0, put_entry w fd (release_entry (w.shared fd)))
unfolding k_close
k_close_lem me fd w h l used own = ground (arith, relock w l)
