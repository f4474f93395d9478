-- ===== src/Ktp/Window/History.antt =====
-- The sender's side of an entry in every order of calls, ACKs and passes of thread S: a queue.
use cn_assignments.Base.{
  ℕ, suc, ◌+◌, ◌-◌, ◌<◌, ◌≤◌, ◌≡◌, ℤ, some, Bytes, List, [], ◌∷◌, ◌++◌, length, done, find_from,
}
use cn_assignments.Ktp.Types.{SharedMemoryEntry, slots}
use cn_assignments.Ktp.Arrivals.{Sent}
use cn_assignments.Ktp.Sockets.{init_entry, claim, request_bind}
use cn_assignments.Ktp.Send.{frame, queue_at}
use cn_assignments.Ktp.Acks.{handle_ack}
use cn_assignments.Ktp.Transmit.{send_pass}
use cn_assignments.Ktp.Window.{seq_at}

-- `Run fd e q a`: a process has claimed a new entry, and it is now `e` by the steps of the sender's
-- side; the frames of the messages that k_sendto has queued are `q`, and `a` of them have been
-- acknowledged. A bind marks the entry 2 until the bind loop has served it. An ACK is
-- for a message of the window with a number greater than any acknowledged before, or for an older one.
pub data Run (fd : ℤ) : SharedMemoryEntry → List Bytes → ℕ → Type 0 where
  claimed : (me : ℕ) → Run fd (claim me (init_entry fd)) [] 0
  bind_requested :
      {e : SharedMemoryEntry} {q : List Bytes} {a : ℕ} (src_ip : Bytes) (src_port : ℕ)
      (dest_ip : Bytes) (dest_port : ℕ)
      → Run fd e q a
      → Run fd (request_bind src_ip src_port dest_ip dest_port e) q a
  bind_served :
      {e : SharedMemoryEntry} {q : List Bytes} {a : ℕ}
      → Run fd e q a
      → Run fd (record e { is_free = 0 }) q a
  sendto :
      {e : SharedMemoryEntry} {q : List Bytes} {a : ℕ} (i : ℕ) (message stack : Bytes)
      (e' : SharedMemoryEntry)
      → Run fd e q a
      → find_from slots 0 e.sbuff_free ≡ some i
      → queue_at e i message stack ≡ done e'
      → Run fd e' (q ++ frame e.max_seq_number_yet i message stack ∷ []) a
  window_ack :
      {e : SharedMemoryEntry} {q : List Bytes} {a : ℕ} (k room : ℕ) (e' : SharedMemoryEntry)
      → Run fd e q a
      → k < length q - a
      → room ≤ 10
      → e.last_ack_received < seq_at e.swnd.start_sequence k
      → handle_ack e (seq_at e.swnd.start_sequence k) room ≡ done e'
      → Run fd e' q (a + suc k)
  old_ack :
      {e : SharedMemoryEntry} {q : List Bytes} {a : ℕ} (acked room : ℕ) (e' : SharedMemoryEntry)
      → Run fd e q a
      → 1 ≤ acked
      → acked ≤ e.last_ack_received
      → room ≤ 10
      → handle_ack e acked room ≡ done e'
      → Run fd e' q a
  pass_of_s :
      {e : SharedMemoryEntry} {q : List Bytes} {a : ℕ} (now : ℕ) (r : Sent)
      → Run fd e q a
      → send_pass now e ≡ done r
      → Run fd r.0 q a
