-- ===== src/Ktp/Sockets/Race.antt =====
-- Two k_bind calls at once: the semaphore `sem1` does not say whose request was served.
use cn_assignments.Base.{
  ℕ, ◌+◌, ◌-◌, ◌<◌, ◌≤◌, ◌≡◌, true, false, some, pos, done, arith, find_from, find_from-some,
  find_from_of_count, count-pos, dec_lt,
}
use cn_assignments.Ktp.Types.{World, put_entry}
use cn_assignments.Ktp.Sockets.{serve_bind, k_bind_finish, wants_bind, socket_row}

-- the entry that the bind loop serves stands at or before any that waits
first_waiting :
    (w : World) (i : ℕ)
    → i < 10
    → wants_bind w i ≡ true
    → (k : ℕ) × (find_from 10 0 (wants_bind w) ≡ some k) × (k ≤ i)
first_waiting w i h t =
    let (k, e) = find_from_of_count 10 (wants_bind w) (count-pos 10 i _ h t) in
    let r = find_from-some 10 0 (wants_bind w) e in
    (
      k,
      e,
      elim (dec_lt i k) [
        | yes p ↦ let f : wants_bind w i ≡ false = r.before i (omega arith) p in absurd (cc)
        | no p ↦ omega arith
      ],
    )

-- While two requests stand, for `i` and for `j` past it, one turn of the bind loop lets the k_bind
-- of `j` return 0 although entry `j` still waits to be bound.
pub k_bind_race :
    (i j : ℕ) (w : World)
    → i < j
    → j < 10
    → (w.shared i).is_free ≡ 2
    → (w.shared j).is_free ≡ 2
    → 0 < w.sem2
    → 0 < w.sem_sm
    → (v : World) × (u : World) × (serve_bind w ≡ done v)
      × (k_bind_finish v j ≡ done (pos 0, socket_row (w.shared j), u))
      × ((u.shared j).is_free ≡ 2)
unfolding serve_bind k_bind_finish
k_bind_race i j w ij j10 wi wj s2 s =
    let (k, e, ki) = first_waiting w i (omega arith) (ground arith) in
    let t = put_entry w k (record (w.shared k) { is_free = 0 }) in
    (
      record t { sem1 = w.sem1 + 1; sem2 = w.sem2 - 1 },
      record t { sem2 = w.sem2 - 1 },
      ground arith,
      ground arith,
      ground arith,
    )
