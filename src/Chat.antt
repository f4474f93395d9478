-- ===== src/Chat.antt =====
-- Lab_Test_1/chatserver.c: clients send a number each round, and the server announces the largest.
pub mod Rounds
pub mod Stall
pub mod Client
mod ChatExamples
use cn_assignments.Base.{
  ℕ, zero, suc, ◌+◌, ◌-◌, Bool, true, false, not, Option, none, some, ltb, leb, ◌==◌, if◌then◌else◌,
  List, [], ◌∷◌, ◌++◌, ℤ, pos, negsuc, ltb_ℤ, update, find_from,
}

abbrev pub max_clients : ℕ
max_clients = 5

-- `client_numbers` are what `atoi` makes of the texts.
pub record ChatServer : Type 0 where
  pub clientsockfd : ℕ → ℕ
  pub client_sent : ℕ → Bool
  pub client_numbers : ℕ → ℤ
  pub numclient : ℕ
  pub round : ℕ

abbrev pub init_server : ChatServer
init_server = record {
  clientsockfd = λ i. 0;
  client_sent = λ i. false;
  client_numbers = λ i. pos 0;
  numclient = 0;
  round = 1;
}

-- the three messages, with the numbers in them; the winner is named by its socket
pub data Message : Type 0 where
  call_for : ℕ → Message
  duplicate : ℕ → Message
  result : ℕ → ℤ → ℕ → Message

pub record Sent : Type 0 where
  pub to : ℕ
  pub message : Message

-- to the clients `i`, ..., `i + n - 1`
unfoldable pub send_all : ℕ → ℕ → (ℕ → ℕ) → Message → List Sent
send_all zero i fds m = []
send_all (suc n) i fds m = record { to = fds i; message = m } ∷ send_all n (i + 1) fds m

-- a new connection; the sixth client is turned away
unfoldable pub accept_client : ℕ → ChatServer → ChatServer × List Sent
accept_client new_socket s =
    if not (ltb s.numclient max_clients)
    then (s, [])
    else let fds = update s.clientsockfd s.numclient new_socket in
      let t = record s { clientsockfd = fds; numclient = s.numclient + 1 } in
      (
        t,
        if ltb t.numclient 2
            then []
            else if t.numclient == 2
            then send_all 2 0 fds (call_for s.round)
            else record { to = new_socket; message = call_for s.round } ∷ [],
      )

-- the loop that shifts a table down over place `i`; it leaves the last place as it is
unfoldable pub shift {ℓ} : {A : Type ℓ} → ℕ → ℕ → (ℕ → A) → ℕ → A
shift zero j table = table
shift (suc n) j table = shift n (j + 1) (update table j (table (j + 1)))

-- client `i` has gone
unfoldable pub disconnect : ℕ → ChatServer → ChatServer
disconnect i s =
    let n = s.numclient - 1 - i in
    record s {
      clientsockfd = shift n i s.clientsockfd;
      client_sent = shift n i s.client_sent;
      client_numbers = shift n i s.client_numbers;
      numclient = s.numclient - 1;
    }

-- The loop that finds the largest number, from client `j` on, `n` of them.
unfoldable pub find_max : ℕ → ℕ → (ℕ → ℤ) → ℤ → ℕ → ℤ × ℕ
find_max zero j numbers max_num max_index = (max_num, max_index)
find_max (suc n) j numbers max_num max_index =
    let larger = ltb_ℤ max_num (numbers j) in
    find_max n (j + 1) numbers (if larger then numbers j else max_num)
      (if larger then j else max_index)

-- -2147483648
abbrev pub int_min : ℤ
int_min = negsuc 2147483647

-- the loop that clears the marks of the clients
unfoldable pub clear_sent : ℕ → ℕ → (ℕ → Bool) → ℕ → Bool
clear_sent zero j sent = sent
clear_sent (suc n) j sent = clear_sent n (j + 1) (update sent j false)

-- the end of a round
unfoldable pub announce : ChatServer → ChatServer × List Sent
announce s =
    let best = find_max s.numclient 0 s.client_numbers int_min 0 in
    (
      record s { client_sent = clear_sent s.numclient 0 s.client_sent; round = s.round + 1 },
      send_all s.numclient 0 s.clientsockfd (result s.round best.0 (s.clientsockfd best.1)),
    )

abbrev pub missing : ChatServer → ℕ → Bool
missing s j = not (s.client_sent j)

unfoldable pub store_number : ℕ → ℤ → ChatServer → ChatServer × List Sent
store_number i number s =
    let t = record s {
      client_numbers = update s.client_numbers i number;
      client_sent = update s.client_sent i true;
    } in
    elim (find_from t.numclient 0 (missing t)) [ none ↦ announce t | some j ↦ (t, []) ]

-- a message of client `i`
unfoldable pub receive_number : ℕ → ℤ → ChatServer → ChatServer × List Sent
receive_number i number s =
    if ltb s.numclient 2
    then (s, [])
    else if s.client_sent i
    then (s, record { to = s.clientsockfd i; message = duplicate s.round } ∷ [])
    else store_number i number s

-- what `read` yields on a socket that is ready
pub data Input : Type 0 where
  number : ℤ → Input
  gone : Input

-- The loop over the clients after `select`: `ready` tells what a socket has. A disconnect takes one
-- client away and stays at the same place, so that `n` clients are left in every case.
unfoldable pub serve_clients : ℕ → ℕ → (ℕ → Option Input) → ChatServer → ChatServer × List Sent
serve_clients zero i ready s = (s, [])
serve_clients (suc n) i ready s = elim (ready (s.clientsockfd i)) [
  | none ↦ serve_clients n (i + 1) ready s
  | some input ↦ elim input [
    | gone ↦ serve_clients n i ready (disconnect i s)
    | number v ↦
        let r = receive_number i v s in
        let rest = serve_clients n (i + 1) ready r.0 in (rest.0, r.1 ++ rest.1)
  ]
]
