-- ===== src/Cldp/Client/Run.antt =====
-- A run of the client and of its servers (cldp_client.c with cldp_server.c).
use cn_assignments.Base.{
  ℕ, ◌≡◌, ◌≢◌, refl, sym, ap, ap₂, ◌∙◌, subst, true, false, Option, none, some, Bytes, List, [],
  ◌∷◌, ◌++◌, map, All, append-All, arith, eq→==,
}
use mathlib.Core.List.{filter_map, filter_map-append, map-append}
use mathlib.Core.List.{Perm}
use mathlib.Core.Option.{some-injective}
use mathlib.Core.List.Perm
use cn_assignments.Cldp.{
  Packet, Node, Metadata, knows, discover_servers, send_query, process_response,
}
use cn_assignments.Cldp.Nodes.{heard, discover_servers_lem}
use cn_assignments.Cldp.Client.{command, send_queries, cldp_client, client_loop}
use cn_assignments.Cldp.Client.Asked.{Asks, command-Asks, values, Asks-values}
use cn_assignments.Cldp.Client.Values.{
  replies, datagrams, type_values, client_loop-filter_map, others-unprinted, asked_value,
  IsAnswered, answers_printed, IsKnown, knows-send_query, send_query-IsKnown, send_query-IsAnswered,
  send_query-asked_value, type_values-send_query,
}

knows-send_queries :
    (addr client : ℕ) (random : ℕ → ℕ → ℕ × ℕ) (types : List ℕ) (nodes : List Node)
    → knows addr (send_queries client random types nodes).0 ≡ knows addr nodes
unfolding send_queries
knows-send_queries addr client random [] nodes = refl
knows-send_queries addr client random (t ∷ types) nodes =
    knows-send_queries addr client random types (send_query client t (random t) 0 nodes).0
    ∙ knows-send_query addr client t (random t) 0 nodes

send_queries-IsAnswered :
    (m : ℕ → ℕ → Metadata) (client : ℕ) (random : ℕ → ℕ → ℕ × ℕ) (types : List ℕ)
    (known nodes : List Node)
    → IsKnown client known nodes
    → All (IsAnswered m client known) (send_queries client random types nodes).1
unfolding send_queries
send_queries-IsAnswered m client random [] known nodes h = tt
send_queries-IsAnswered m client random (t ∷ types) known nodes h =
    append-All _ (send_query client t (random t) 0 nodes).1 _
      (send_query-IsAnswered m client t (random t) 0 known nodes h)
      (send_queries-IsAnswered m client random types known
        (send_query client t (random t) 0 nodes).0
        (send_query-IsKnown client t (random t) 0 known nodes h))

send_queries-asked_value :
    (m : ℕ → ℕ → Metadata) (client : ℕ) (random : ℕ → ℕ → ℕ × ℕ) (types : List ℕ)
    (nodes : List Node)
    → map (asked_value m) (send_queries client random types nodes).1 ≡ type_values m types nodes
unfolding send_queries
send_queries-asked_value m client random [] nodes = refl
send_queries-asked_value m client random (t ∷ types) nodes =
    let first = send_query client t (random t) 0 nodes in
    map-append (asked_value m) first.1 (send_queries client random types first.0).1
    ∙ ap₂ (λ xs ys. xs ++ ys) (send_query-asked_value m client t (random t) 0 nodes)
        (send_queries-asked_value m client random types first.0
          ∙ type_values-send_query m types client t (random t) 0 nodes)

-- the members of a list are known, if a list that has them all is looked at
members-IsKnown :
    (client : ℕ) (known nodes : List Node)
    → ((addr : ℕ) → knows addr nodes ≡ true → knows addr known ≡ true)
    → knows client nodes ≡ false
    → IsKnown client known nodes
unfolding knows
members-IsKnown client known [] has strange = tt
members-IsKnown client known (n ∷ nodes) has strange =
    let same = eq→== n.dest_addr n.dest_addr refl in
    (
      (
        has n.dest_addr (ground arith),
        λ e. let c = eq→== n.dest_addr client (sym e) in ground arith,
      ),
      members-IsKnown client known nodes (λ addr k. has addr (ground arith)) (ground arith),
    )

-- the start of the client, if it does not exit
start-queries :
    (types : Option (List ℕ)) (start : List ℕ → List Node × List Packet)
    (r : List Node × List Packet)
    → (elim types [ none ↦ none | some ts ↦ some (start ts) ]) ≡ some r
    → (ts : List ℕ) × (types ≡ some ts) × (start ts ≡ r)
start-queries none start r e = absurd (cc)
start-queries (some ts) start r e = (ts, refl, some-injective _ _ e)

-- what the loop prints of the answers and the datagrams for others
loop_prints :
    (m : ℕ → ℕ → Metadata) (tid random3 : ℕ → ℕ) (client : ℕ) (nodes : List Node)
    (queries others : List Packet) (arrivals : List (Option Packet))
    → All (IsAnswered m client nodes) queries
    → All (λ (p : Packet). p.ip.daddr ≢ client) others
    → Perm (datagrams arrivals) (others ++ replies m tid random3 0 queries)
    → Perm (client_loop client nodes arrivals) (map (asked_value m) queries)
loop_prints m tid random3 client nodes queries others arrivals a o p =
    let print = process_response client nodes in
    let e =
      filter_map-append print others (replies m tid random3 0 queries)
      ∙ ap₂ (λ xs ys. xs ++ ys) (others-unprinted client nodes others o)
          (answers_printed m tid random3 client nodes 0 queries a) in
    subst (λ l. Perm l (map (asked_value m) queries))
      (sym (client_loop-filter_map client nodes arrivals))
      (subst (λ l. Perm (filter_map print (datagrams arrivals)) l) e (Perm.filter_map print p))

-- A run of the client that starts, having heard no HELLO from its own address: if the datagrams that
-- arrive are, in any order, the answers of the servers to its queries and others for other hosts, it
-- prints exactly what its command asks for of every server in its list: the name of the host, the
-- time, the load, or each of the three, cut to 255, 19 and 32 bytes. Failing receives change nothing, nor do the transaction ids and random numbers of the servers.
pub client_prints :
    (m : ℕ → ℕ → Metadata) (tid random3 : ℕ → ℕ) (client : ℕ) (random : ℕ → ℕ → ℕ × ℕ)
    (args : List Bytes) (discovery : List (ℕ × Packet)) (nodes : List Node)
    (queries others : List Packet) (arrivals : List (Option Packet))
    → cldp_client args client random discovery ≡ some (nodes, queries)
    → heard client discovery ≡ false
    → All (λ (p : Packet). p.ip.daddr ≢ client) others
    → Perm (datagrams arrivals) (others ++ replies m tid random3 0 queries)
    → (asked : List (ℕ × (Metadata → Bytes))) × Asks args asked
      × Perm (client_loop client nodes arrivals) (values m asked (discover_servers [] discovery))
unfolding cldp_client
client_prints m tid random3 client random args discovery nodes queries others arrivals start strange
      o p =
    let servers = discover_servers [] discovery in
    let s =
      start-queries (command args) (λ types. send_queries client random types servers)
        (nodes, queries) start in
    let types = s.0 in
    let known = ap (λ (r : List Node × List Packet). r.0) s.2 in
    let sent = ap (λ (r : List Node × List Packet). r.1) s.2 in
    let members =
      members-IsKnown client (send_queries client random types servers).0 servers
        (λ addr k. knows-send_queries addr client random types servers ∙ k)
        ((discover_servers_lem client discovery).1 ∙ strange) in
    let answered =
      send_queries-IsAnswered m client random types (send_queries client random types servers).0
        servers members in
    let answered' =
      subst (λ (r : List Node × List Packet). All (IsAnswered m client r.0) r.1) s.2 answered in
    let a = command-Asks args types s.1 in
    (
      a.0,
      a.1,
      subst (λ l. Perm (client_loop client nodes arrivals) l)
          (ap (map (asked_value m)) (sym sent)
            ∙ send_queries-asked_value m client random types servers
            ∙ ap (λ ts. type_values m ts servers) (sym a.2)
            ∙ Asks-values m args a.0 servers a.1)
          (loop_prints m tid random3 client nodes queries others arrivals answered' o p),
    )
