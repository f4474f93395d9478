-- ===== src/Cldp/Client.antt =====
-- The client's main (cldp_client.c): its command line, the queries, and the loop that prints.
pub mod Values
pub mod Asked
pub mod Run
mod ClientExamples
use cn_assignments.Base.{
  ℕ, Option, none, some, Bytes, List, [], ◌∷◌, ◌++◌, codes, same_text, if◌then◌else◌,
}
use cn_assignments.Cldp.{Packet, Node, discover_servers, send_query, process_response}

-- the metadata types that `query` asks for
unfoldable pub queried : List Bytes → Option (List ℕ)
queried [] = none
queried (what ∷ args) =
    if same_text what (codes "hostname")
    then some (1 ∷ [])
    else if same_text what (codes "systime")
    then some (2 ∷ [])
    else if same_text what (codes "cpuload")
    then some (3 ∷ [])
    else if same_text what (codes "all")
    then some (1 ∷ 2 ∷ 3 ∷ [])
    else none

-- the words behind the program's name; of a command it does not know the client prints its usage
unfoldable pub command : List Bytes → Option (List ℕ)
command [] = none
command (verb ∷ args) = if same_text verb (codes "query") then queried args else none

-- The calls of `send_query`, one for each type. The random numbers of type `t` are `random t`.
unfoldable pub send_queries : ℕ → (ℕ → ℕ → ℕ × ℕ) → List ℕ → List Node → List Node × List Packet
send_queries ip_address random [] nodes = (nodes, [])
send_queries ip_address random (t ∷ types) nodes =
    let first = send_query ip_address t (random t) 0 nodes in
    let rest = send_queries ip_address random types first.0 in (rest.0, first.1 ++ rest.1)

-- The client up to its loop: what it knows and has sent, or none when it exits. `datagrams` are
-- those of the discovery.
unfoldable pub cldp_client :
    List Bytes → ℕ → (ℕ → ℕ → ℕ × ℕ) → List (ℕ × Packet) → Option (List Node × List Packet)
cldp_client args ip_address random datagrams = elim (command args) [
  | none ↦ none
  | some types ↦ some (send_queries ip_address random types (discover_servers [] datagrams))
]

-- What the loop prints until the signal ends it. An arrival is none where `recvfrom` fails or
-- returns 0.
unfoldable pub client_loop : ℕ → List Node → List (Option Packet) → List Bytes
client_loop ip_address nodes [] = []
client_loop ip_address nodes (none ∷ arrivals) = client_loop ip_address nodes arrivals
client_loop ip_address nodes (some p ∷ arrivals) =
    let rest = client_loop ip_address nodes arrivals in
    elim (process_response ip_address nodes p) [ none ↦ rest | some value ↦ value ∷ rest ]
