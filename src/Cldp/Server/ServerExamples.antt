-- ===== src/Cldp/Server/ServerExamples.antt =====
-- A test of the server's loop, and its theorem at a concrete run.
use cn_assignments.Base.{ℕ, ◌≡◌, refl, true, false, List, [], ◌∷◌, codes, arith}
use cn_assignments.Cldp.{Metadata, query, send_hello}
use cn_assignments.Cldp.Server.{
  Reception, Moment, Server, silent, interrupted, packet_in, server_loop, server_turn, say_hello,
  receive,
}
use cn_assignments.Cldp.Server.Answered.{Kept, due, server_loop-Kept}

abbrev metadata : Metadata
metadata = record { hostname = codes "host"; systime = []; cpuload = [] }

abbrev moment : ℕ → Reception → Moment
moment now arrival = record {
  now = now;
  sent_at = now;
  random1 = 1;
  random2 = 2;
  random3 = 3;
  arrival = arrival;
  metadata = metadata;
}

abbrev server : Server
server = record { transaction_id = 5; start = 0; running = true }

-- a HELLO after eleven seconds, and nothing after the signal
hello_sent :
    server_loop 7 (moment 10 silent ∷ moment 11 interrupted ∷ moment 30 silent ∷ []) server
    ≡ (record { transaction_id = 5; start = 11; running = false }, send_hello 7 5 1 2 ∷ [])
unfolding server_loop server_turn say_hello receive
hello_sent = refl

abbrev moments : List Moment
moments =
    moment 4 (packet_in (query 9 1 1 6 (record { tid = 0; dest_addr = 7 }))) ∷ moment 12 silent ∷ []

server_loop-Kept_example : Kept 5 (due 7 moments) (server_loop 7 moments server)
server_loop-Kept_example =
    server_loop-Kept 7 moments server (λ e. omega arith) refl
      ((λ e. cc, λ e. cc), ((λ e. cc, λ e. cc), tt))
