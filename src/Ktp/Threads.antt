-- ===== src/Ktp/Threads.antt =====
-- The rounds of thread_R_function and thread_S_function (initksocket.c) over the ten sockets.
use cn_assignments.Base.{
  ℕ, zero, suc, ◌+◌, Option, none, some, List, [], ◌++◌, Outcome, done, ◌>>=◌,
}
use cn_assignments.Ktp.Types.{World, sem_wait, sem_post, put_entry, Datagram, max_ktp_sockets}
use cn_assignments.Ktp.Arrivals.{report_room, Arrival, receive}
use cn_assignments.Ktp.Transmit.{send_pass}

abbrev pub after : List Datagram → World × List Datagram → Outcome (World × List Datagram)
after ds r = done (r.0, ds ++ r.1)

-- The loop at the head of thread R, from entry `i`: it takes the lock for each entry.
unfoldable pub report_from : ℕ → ℕ → World → Outcome (World × List Datagram)
unfolding report_room
report_from zero i w = done (w, [])
report_from (suc n) i w =
    let later = λ (u : World). report_from n (i + 1) u in
    sem_wait w >>= λ v.
    let r = report_room (v.shared i) in later (sem_post (put_entry v i r.0)) >>= after r.1

-- The loop after `select`, under one lock: `arrivals` has what each readable socket gave.
unfoldable pub receive_from : ℕ → ℕ → (ℕ → Option Arrival) → World → Outcome (World × List Datagram)
unfolding receive
receive_from zero i arrivals w = done (w, [])
receive_from (suc n) i arrivals w =
    let later = λ (u : World). receive_from n (i + 1) arrivals u in
    elim (arrivals i) [
      | none ↦ later w
      | some a ↦ receive (w.shared i) a >>= λ r. later (put_entry w i r.0) >>= after r.1
    ]

-- One round of thread R; `arrivals` is empty if `select` timed out or failed.
unfoldable pub thread_r : (ℕ → Option Arrival) → World → Outcome (World × List Datagram)
unfolding report_from receive_from
thread_r arrivals w = report_from max_ktp_sockets 0 w >>= λ r. sem_wait r.0 >>= λ v.
    receive_from max_ktp_sockets 0 arrivals v >>= λ s. done (sem_post s.0, r.1 ++ s.1)

-- The loop of thread S over the sockets, under one lock.
unfoldable pub send_from_all : ℕ → ℕ → ℕ → World → Outcome (World × List Datagram)
unfolding send_pass
send_from_all zero i now w = done (w, [])
send_from_all (suc n) i now w =
    let later = λ (u : World). send_from_all n (i + 1) now u in
    send_pass now (w.shared i) >>= λ r. later (put_entry w i r.0) >>= after r.1

-- One round of thread S at time `now`.
unfoldable pub thread_s : ℕ → World → Outcome (World × List Datagram)
unfolding send_from_all
thread_s now w =
    sem_wait w >>= λ v. send_from_all max_ktp_sockets 0 now v >>= λ r. done (sem_post r.0, r.1)
