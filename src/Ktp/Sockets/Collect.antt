-- ===== src/Ktp/Sockets/Collect.antt =====
-- The garbage collector frees the entries of dead processes and no others.
use cn_assignments.Base.{
  ℕ, zero, suc, ◌+◌, ◌-◌, ◌<◌, ◌≡◌, refl, ◌∙◌, Bool, true, not, done, arith, ◌==◌, ltb, leb, ◌&&◌,
  if◌then◌else◌,
}
use cn_assignments.Ktp.Types.{World, SharedMemoryEntry, sem_post, put_entry, max_ktp_sockets}
use cn_assignments.Ktp.Sockets.{collect, collect_from, garbage_collector, release_entry}

collect_from-shared :
    (n i : ℕ) (alive : ℕ → Bool) (w : World) (j : ℕ)
    → (collect_from n i alive w).shared j
      ≡ (if leb i j && ltb j (i + n) then collect alive (w.shared j) else w.shared j)
unfolding collect_from
collect_from-shared zero i alive w j = ground arith
collect_from-shared (suc n) i alive w j =
    ground
      (arith, collect_from-shared n (i + 1) alive (put_entry w i (collect alive (w.shared i))) j)

collect_from-sem_sm :
    (n i : ℕ) (alive : ℕ → Bool) (w : World) → (collect_from n i alive w).sem_sm ≡ w.sem_sm
unfolding collect_from
collect_from-sem_sm zero i alive w = refl
collect_from-sem_sm (suc n) i alive w =
    collect_from-sem_sm n (i + 1) alive (put_entry w i (collect alive (w.shared i)))

leb_zero : (j : ℕ) → leb 0 j ≡ true
leb_zero j = ground arith

collect-cases :
    (alive : ℕ → Bool) (e : SharedMemoryEntry) (b : Bool)
    → (if b then collect alive e else e)
      ≡ (if b && not (e.is_free == 1) && not (alive e.pid) then release_entry e else e)
unfolding collect
collect-cases alive e b = ground arith

-- One pass of the collector gives the lock back; it frees exactly those of the ten entries that are
-- in use by a dead process, and leaves every other entry as it was.
pub garbage_collector_lem :
    (alive : ℕ → Bool) (w : World) (j : ℕ)
    → 0 < w.sem_sm
    → (v : World) × (garbage_collector alive w ≡ done v)
      × (v.sem_sm ≡ w.sem_sm)
      × (v.shared j ≡ (
          if ltb j 10 && not ((w.shared j).is_free == 1) && not (alive (w.shared j).pid)
          then release_entry (w.shared j)
          else w.shared j))
unfolding garbage_collector
garbage_collector_lem alive w j h =
    let u = record w { sem_sm = w.sem_sm - 1 } in
    let v = collect_from max_ktp_sockets 0 alive u in
    let seen = collect_from-shared max_ktp_sockets 0 alive u in
    (
      sem_post v,
      ground arith,
      omega (arith, collect_from-sem_sm max_ktp_sockets 0 alive u),
      seen j ∙ rw (leb_zero j) (collect-cases alive (w.shared j) (ltb j 10)),
    )
