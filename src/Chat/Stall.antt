-- ===== src/Chat/Stall.antt =====
-- A client that goes before the round ends.
use cn_assignments.Base.{
  ℕ, zero, suc, ◌+◌, ◌-◌, ◌≤◌, ◌<◌, ◌≡◌, ◌≢◌, sym, subst, Bool, true, [], ◌∷◌, ℤ, ltb, update,
  update-cases, arith,
}
use cn_assignments.Chat.{
  ChatServer, duplicate, accept_client, shift, disconnect, receive_number, max_clients,
}

-- A table that is set everywhere stays so.
shift-all :
    (n j b : ℕ) (table : ℕ → Bool)
    → ((k : ℕ) → k < b → table k ≡ true)
    → j + n < b
    → (k : ℕ) → k < b
    → shift n j table k ≡ true
unfolding shift
shift-all zero j b table h p k q = h k q
shift-all (suc n) j b table h p k q =
    shift-all n (j + 1) b (update table j (table (j + 1)))
      (λ k.
        update-cases (λ x v. x < b → v ≡ true) table j (table (j + 1)) k
          (λ q. h (j + 1) (omega arith)) (λ ne q. h k q))
      (omega arith) k q

-- Only the place that is shifted away was not set: afterwards all are, the place behind the last
-- included.
shift-marked :
    (n j b : ℕ) (table : ℕ → Bool)
    → ((k : ℕ) → k < b → k ≢ j → table k ≡ true)
    → 0 < n
    → j + n < b
    → (k : ℕ) → k < b
    → shift n j table k ≡ true
unfolding shift
shift-marked zero j b table h z p k q = absurd (omega arith)
shift-marked (suc n) j b table h z p k q =
    shift-all n (j + 1) b (update table j (table (j + 1)))
      (λ k.
        update-cases (λ x v. x < b → v ≡ true) table j (table (j + 1)) k
          (λ q. h (j + 1) (omega arith) (omega arith)) (λ ne q. h k q ne))
      (omega arith) k q

refused :
    (j : ℕ) (number : ℤ) (s : ChatServer)
    → 1 < s.numclient
    → s.client_sent j ≡ true
    → receive_number j number s
      ≡ (s, record { to = s.clientsockfd j; message = duplicate s.round } ∷ [])
unfolding receive_number
refused j number s two sent = ground arith

-- a client accepted into a free place
abbrev joined : ℕ → ChatServer → ChatServer
joined new_socket s = record s {
  clientsockfd = update s.clientsockfd s.numclient new_socket;
  numclient = s.numclient + 1;
}

accept_client-joined :
    (new_socket : ℕ) (s : ChatServer)
    → s.numclient < max_clients
    → (accept_client new_socket s).0 ≡ joined new_socket s
unfolding accept_client
accept_client-joined new_socket s h =
    let room : ltb s.numclient 5 ≡ true = ground arith in ground arith

-- All of more than two clients but client `i`, which is not the last in the table, have sent their
-- numbers, and client `i` goes. The round does not end: whatever the others send is answered as a
-- duplicate and changes nothing, and the same holds of them and of a new client once it has been
-- accepted, although the new client has sent nothing.
pub disconnect_stalls :
    (i j k new_socket : ℕ) (number : ℤ) (s : ChatServer)
    → 2 < s.numclient
    → s.numclient ≤ max_clients
    → i + 1 < s.numclient
    → ((l : ℕ) → l < s.numclient → l ≢ i → s.client_sent l ≡ true)
    → j + 1 < s.numclient
    → k < s.numclient
    → (receive_number j number (disconnect i s) ≡ (
      disconnect i s,
      record { to = (disconnect i s).clientsockfd j; message = duplicate s.round } ∷ [],
    ))
      × (receive_number k number (accept_client new_socket (disconnect i s)).0 ≡ (
        (accept_client new_socket (disconnect i s)).0,
        record {
          to = (accept_client new_socket (disconnect i s)).0.clientsockfd k;
          message = duplicate s.round;
        }
            ∷ [],
      ))
unfolding disconnect
disconnect_stalls i j k new_socket number s three five later others p q =
    let marked =
      shift-marked (s.numclient - 1 - i) i s.numclient s.client_sent others (omega arith)
        (omega arith) in
    let t = disconnect i s in
    let e = accept_client-joined new_socket t (omega arith) in
    (
      refused j number t (omega arith) (marked j (omega arith)),
      subst
          (λ u.
            receive_number k number u
            ≡ (u, record { to = u.clientsockfd k; message = duplicate s.round } ∷ []))
          (sym e) (refused k number (joined new_socket t) (omega arith) (marked k q)),
    )
