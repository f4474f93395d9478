-- ===== src/Cldp/Client/Values.antt =====
-- What the client prints of the answers to its queries (cldp_client.c with cldp_server.c).
use cn_assignments.Base.{
  ℕ, ◌+◌, ◌≡◌, ◌≢◌, refl, ap, ap₂, ◌∙◌, true, ◌||◌, ◌==◌, Option, none, some, Bytes, List, [], ◌∷◌,
  ◌++◌, map, All, arith,
}
use mathlib.Core.List.{filter_map, filter_map-cons-some}
use mathlib.Core.Option.{Option-elim}
use cn_assignments.Cldp.{
  Packet, Node, Metadata, knows, serve, ip_header, send_query, metadata_value, first_byte,
  process_response,
}
use cn_assignments.Cldp.Exchange.{query_answered}
use cn_assignments.Cldp.Client.{client_loop}

-- The answers to the queries, where the transaction id of the server that gets query `i` is `tid i`
-- and its random number `random i`; `m addr t` is what the server at `addr` finds when it is asked
-- for type `t`.
abbrev pub replies : (ℕ → ℕ → Metadata) → (ℕ → ℕ) → (ℕ → ℕ) → ℕ → List Packet → List Packet
replies m tid random i [] = []
replies m tid random i (q ∷ queries) =
    let rest = replies m tid random (i + 1) queries in
    elim (serve (m q.ip.daddr (first_byte q.payload)) q.ip.daddr (tid i) (random i) q).1 [
      | none ↦ rest
      | some r ↦ r ∷ rest
    ]

-- the datagrams among the arrivals
abbrev pub datagrams : List (Option Packet) → List Packet
datagrams [] = []
datagrams (none ∷ arrivals) = datagrams arrivals
datagrams (some p ∷ arrivals) = p ∷ datagrams arrivals

-- the values of the types on the servers
abbrev pub type_values : (ℕ → ℕ → Metadata) → List ℕ → List Node → List Bytes
type_values m [] nodes = []
type_values m (t ∷ types) nodes =
    map (λ (n : Node). metadata_value (m n.dest_addr t) t) nodes ++ type_values m types nodes

-- one step of `filter_map`, as the loop makes it
option-step :
    {A : Type 0} (o : Option A) (xs ys : List A)
    → xs ≡ ys
    → (elim o [ none ↦ xs | some a ↦ a ∷ xs ]) ≡ Option-elim o ys (λ a. a ∷ ys)
unfolding Option-elim
option-step none xs ys e = e
option-step (some a) xs ys e = ap (λ l. a ∷ l) e

pub client_loop-filter_map :
    (ip_address : ℕ) (nodes : List Node) (arrivals : List (Option Packet))
    → client_loop ip_address nodes arrivals
      ≡ filter_map (process_response ip_address nodes) (datagrams arrivals)
unfolding client_loop filter_map
client_loop-filter_map ip_address nodes [] = refl
client_loop-filter_map ip_address nodes (none ∷ arrivals) =
    client_loop-filter_map ip_address nodes arrivals
client_loop-filter_map ip_address nodes (some p ∷ arrivals) =
    let rest = client_loop-filter_map ip_address nodes arrivals in
    option-step (process_response ip_address nodes p) _ _ rest

-- a datagram for another host is not printed
pub others-unprinted :
    (ip_address : ℕ) (nodes : List Node) (others : List Packet)
    → All (λ (p : Packet). p.ip.daddr ≢ ip_address) others
    → filter_map (process_response ip_address nodes) others ≡ []
unfolding filter_map process_response Option-elim
others-unprinted ip_address nodes [] h = refl
others-unprinted ip_address nodes (p ∷ others) h =
    let ne = h.0 in
    let none_here : process_response ip_address nodes p ≡ none = ground arith in
    ap
      (λ (o : Option Bytes).
        Option-elim o (filter_map (process_response ip_address nodes) others)
          (λ b. b ∷ filter_map (process_response ip_address nodes) others))
      none_here
    ∙ others-unprinted ip_address nodes others h.1

-- the value that a query asks for
abbrev pub asked_value : (ℕ → ℕ → Metadata) → Packet → Bytes
asked_value m q = metadata_value (m q.ip.daddr (first_byte q.payload)) (first_byte q.payload)

-- whatever the state of its server, the query is answered, and the value printed
abbrev pub IsAnswered : (ℕ → ℕ → Metadata) → ℕ → List Node → Packet → Type 0
IsAnswered m client nodes q =
    (tid random : ℕ)
    → (tid' : ℕ) × (reply : Packet) × (serve (m q.ip.daddr (first_byte q.payload)) q.ip.daddr tid
          random q
        ≡ (tid', some reply))
      × (process_response client nodes reply ≡ some (asked_value m q))

pub answers_printed :
    (m : ℕ → ℕ → Metadata) (tid random : ℕ → ℕ) (client : ℕ) (nodes : List Node) (i : ℕ)
    (queries : List Packet)
    → All (IsAnswered m client nodes) queries
    → filter_map (process_response client nodes) (replies m tid random i queries)
      ≡ map (asked_value m) queries
unfolding filter_map
answers_printed m tid random client nodes i [] h = refl
answers_printed m tid random client nodes i (q ∷ queries) h =
    let a = h.0 (tid i) (random i) in
    let rest = replies m tid random (i + 1) queries in
    let print = process_response client nodes in
    ap (λ (r : ℕ × Option Packet). filter_map print (elim r.1 [ none ↦ rest | some p ↦ p ∷ rest ]))
      a.2
    ∙ filter_map-cons-some print a.1 rest a.3
    ∙ ap (λ l. asked_value m q ∷ l) (answers_printed m tid random client nodes (i + 1) queries h.1)

-- servers that the list knows, at other addresses than the client's
abbrev pub IsKnown : ℕ → List Node → List Node → Type 0
IsKnown client nodes = All (λ (n : Node). (knows n.dest_addr nodes ≡ true) × (client ≢ n.dest_addr))

pub knows-send_query :
    (addr client t : ℕ) (random : ℕ → ℕ × ℕ) (i : ℕ) (nodes : List Node)
    → knows addr (send_query client t random i nodes).0 ≡ knows addr nodes
unfolding send_query knows
knows-send_query addr client t random i [] = refl
knows-send_query addr client t random i (n ∷ nodes) =
    ap (λ b. (n.dest_addr == addr) || b) (knows-send_query addr client t random (i + 1) nodes)

pub send_query-IsKnown :
    (client t : ℕ) (random : ℕ → ℕ × ℕ) (i : ℕ) (known nodes : List Node)
    → IsKnown client known nodes
    → IsKnown client known (send_query client t random i nodes).0
unfolding send_query
send_query-IsKnown client t random i known [] h = tt
send_query-IsKnown client t random i known (n ∷ nodes) h =
    (h.0, send_query-IsKnown client t random (i + 1) known nodes h.1)

pub send_query-IsAnswered :
    (m : ℕ → ℕ → Metadata) (client t : ℕ) (random : ℕ → ℕ × ℕ) (i : ℕ) (known nodes : List Node)
    → IsKnown client known nodes
    → All (IsAnswered m client known) (send_query client t random i nodes).1
unfolding send_query ip_header
send_query-IsAnswered m client t random i known [] h = tt
send_query-IsAnswered m client t random i known (n ∷ nodes) h = (
  λ tid random3.
      query_answered (m n.dest_addr t) client tid t (random i).0 (random i).1 random3 n known h.0.0
        h.0.1,
  send_query-IsAnswered m client t random (i + 1) known nodes h.1,
)

-- the values that the queries of one type ask for
pub send_query-asked_value :
    (m : ℕ → ℕ → Metadata) (client t : ℕ) (random : ℕ → ℕ × ℕ) (i : ℕ) (nodes : List Node)
    → map (asked_value m) (send_query client t random i nodes).1
      ≡ map (λ (n : Node). metadata_value (m n.dest_addr t) t) nodes
unfolding send_query ip_header
send_query-asked_value m client t random i [] = refl
send_query-asked_value m client t random i (n ∷ nodes) =
    ap (λ l. metadata_value (m n.dest_addr t) t ∷ l)
      (send_query-asked_value m client t random (i + 1) nodes)

map-send_query :
    (f : ℕ → Bytes) (client t : ℕ) (random : ℕ → ℕ × ℕ) (i : ℕ) (nodes : List Node)
    → map (λ (n : Node). f n.dest_addr) (send_query client t random i nodes).0
      ≡ map (λ (n : Node). f n.dest_addr) nodes
unfolding send_query
map-send_query f client t random i [] = refl
map-send_query f client t random i (n ∷ nodes) =
    ap (λ l. f n.dest_addr ∷ l) (map-send_query f client t random (i + 1) nodes)

pub type_values-send_query :
    (m : ℕ → ℕ → Metadata) (types : List ℕ) (client t : ℕ) (random : ℕ → ℕ × ℕ) (i : ℕ)
    (nodes : List Node)
    → type_values m types (send_query client t random i nodes).0 ≡ type_values m types nodes
type_values-send_query m [] client t random i nodes = refl
type_values-send_query m (s ∷ types) client t random i nodes =
    ap₂ (λ xs ys. xs ++ ys)
      (map-send_query (λ addr. metadata_value (m addr s) s) client t random i nodes)
      (type_values-send_query m types client t random i nodes)
