-- ===== src/Cldp/Client/ClientExamples.antt =====
-- Tests of the client's command line and its loop, and its theorem at a concrete run.
use cn_assignments.Base.{
  ℕ, ◌+◌, ◌≡◌, refl, sym, subst, Option, none, some, same_text, Bytes, List, [], ◌∷◌, codes, arith,
}
use mathlib.Core.List.{Perm}
use mathlib.Core.List.Perm
use cn_assignments.Cldp.{
  Packet, Node, Metadata, knows, discover, discover_servers, send_hello, query, serve, respond,
  ip_header, send_query, checksum_matches, calculate_checksum, words, sum_words, fold_carries,
}
use cn_assignments.Cldp.Client.{queried, command, send_queries, cldp_client, client_loop}
use cn_assignments.Cldp.Client.Values.{replies, datagrams}
use cn_assignments.Cldp.Client.Asked.{Asks, values}
use cn_assignments.Cldp.Client.Run.{client_prints}

discover_refused : command (codes "discover" ∷ []) ≡ none
unfolding command same_text
discover_refused = refl

abbrev hosts : ℕ → ℕ → Metadata
hosts addr t = record { hostname = (addr + 48) ∷ []; systime = []; cpuload = [] }

abbrev hellos : List (ℕ × Packet)
hellos = (28, send_hello 7 0 1 2) ∷ (28, send_hello 8 0 3 4) ∷ []

abbrev args : List Bytes
args = codes "query" ∷ codes "hostname" ∷ []

abbrev random : ℕ → ℕ → ℕ × ℕ
random t i = (t, i + 5)

abbrev node : ℕ → ℕ → Node
node tid addr = record { tid = tid; dest_addr = addr }

abbrev asked : ℕ → ℕ → Packet
asked addr tid = query 9 1 1 tid (node 0 addr)

abbrev reply : ℕ → ℕ → Packet
reply addr tid = respond (hosts addr 1) addr 3 (asked addr tid)

started :
    cldp_client args 9 random hellos ≡ some (node 5 8 ∷ node 6 7 ∷ [], asked 8 5 ∷ asked 7 6 ∷ [])
unfolding cldp_client command queried same_text send_queries send_query discover_servers discover
    knows send_hello ip_header
started = refl

answered :
    replies hosts (λ i. 0) (λ i. 3) 0 (asked 8 5 ∷ asked 7 6 ∷ []) ≡ reply 8 5 ∷ reply 7 6 ∷ []
unfolding serve checksum_matches ip_header calculate_checksum words sum_words fold_carries
answered = refl

abbrev arrivals : List (Option Packet)
arrivals = some (send_hello 7 0 1 2) ∷ none ∷ some (reply 7 6) ∷ some (reply 8 5) ∷ []

client_prints_example :
    (asked : List (ℕ × (Metadata → Bytes))) × Asks args asked
    × Perm
        (client_loop 9 (node 5 8 ∷ node 6 7 ∷ []) arrivals)
        (values hosts asked (discover_servers [] hellos))
unfolding send_hello ip_header
client_prints_example =
    client_prints hosts (λ i. 0) (λ i. 3) 9 random args hellos (node 5 8 ∷ node 6 7 ∷ [])
      (asked 8 5 ∷ asked 7 6 ∷ []) (send_hello 7 0 1 2 ∷ []) arrivals started refl
      ((λ e. omega arith), tt)
      (subst (λ l. Perm (datagrams arrivals) (send_hello 7 0 1 2 ∷ l)) (sym answered)
        (Perm.cons (send_hello 7 0 1 2) (Perm.swap (reply 8 5) (reply 7 6) [])))
