-- ===== src/Cldp/Nodes.antt =====
-- The list of servers that the client keeps.
use cn_assignments.Base.{
  ℕ, ◌≡◌, Bool, true, false, not, ◌&&◌, ◌||◌, List, [], ◌∷◌, ◌==◌, ltb, arith, if◌then◌else◌,
  Bool-cases, inl, inr, subst,
}
use cn_assignments.Cldp.{Packet, Node, knows, discover, discover_servers, cldp_protocol, hello_type}

-- no address twice
abbrev pub IsDistinct : List Node → Type 0
IsDistinct [] = Unit
IsDistinct (n ∷ nodes) = (knows n.dest_addr nodes ≡ false) × IsDistinct nodes

-- a HELLO of full size
abbrev pub is_hello : ℕ × Packet → Bool
is_hello d =
    not (ltb d.0 28) && (d.1.ip.protocol == cldp_protocol) && (d.1.cldp.msg_type == hello_type)

-- whether a HELLO from the address is among the datagrams
abbrev pub heard : ℕ → List (ℕ × Packet) → Bool
heard addr [] = false
heard addr (d ∷ ds) = (is_hello d && (d.1.ip.saddr == addr)) || heard addr ds

if-IsDistinct :
    (b : Bool) (xs ys : List Node)
    → IsDistinct xs
    → IsDistinct ys
    → IsDistinct (if b then xs else ys)
if-IsDistinct true xs ys p q = p
if-IsDistinct false xs ys p q = q

add_new :
    (addr : ℕ) (nodes : List Node)
    → IsDistinct nodes
    → IsDistinct (if knows addr nodes then nodes else record { tid = 0; dest_addr = addr } ∷ nodes)
add_new addr nodes h = elim (Bool-cases (knows addr nodes)) [
  | inl t ↦
      let e : nodes
          ≡ (if knows addr nodes then nodes else record { tid = 0; dest_addr = addr } ∷ nodes) =
        ground arith in
      subst IsDistinct e h
  | inr u ↦
      let e : record { tid = 0; dest_addr = addr } ∷ nodes
          ≡ (if knows addr nodes then nodes else record { tid = 0; dest_addr = addr } ∷ nodes) =
        ground arith in
      subst IsDistinct e (u, h)
]

discover-IsDistinct :
    (nodes : List Node) (size : ℕ) (p : Packet)
    → IsDistinct nodes
    → IsDistinct (discover nodes size p)
unfolding discover
discover-IsDistinct nodes size p h = if-IsDistinct (ltb size 28) _ _ h (
    if-IsDistinct (not (p.ip.protocol == cldp_protocol) || not (p.cldp.msg_type == hello_type)) _ _
      h (add_new p.ip.saddr nodes h))

knows-discover :
    (addr : ℕ) (nodes : List Node) (size : ℕ) (p : Packet)
    → knows addr (discover nodes size p)
      ≡ knows addr nodes || (is_hello (size, p) && (p.ip.saddr == addr))
unfolding knows discover
knows-discover addr nodes size p = ground arith

servers-IsDistinct :
    (nodes : List Node) (ds : List (ℕ × Packet))
    → IsDistinct nodes
    → IsDistinct (discover_servers nodes ds)
unfolding discover_servers
servers-IsDistinct nodes [] h = h
servers-IsDistinct nodes (d ∷ ds) h =
    servers-IsDistinct (discover nodes d.0 d.1) ds (discover-IsDistinct nodes d.0 d.1 h)

knows-servers :
    (addr : ℕ) (nodes : List Node) (ds : List (ℕ × Packet))
    → knows addr (discover_servers nodes ds) ≡ knows addr nodes || heard addr ds
unfolding discover_servers
knows-servers addr nodes [] = ground arith
knows-servers addr nodes (d ∷ ds) =
    let e = knows-servers addr (discover nodes d.0 d.1) ds in
    let f = knows-discover addr nodes d.0 d.1 in ground arith

-- From the empty list, and whatever datagrams come, the client ends with no address twice, and it
-- knows an address just when a HELLO of full size has come from it.
pub discover_servers_lem :
    (addr : ℕ) (ds : List (ℕ × Packet))
    → IsDistinct (discover_servers [] ds) × (knows addr (discover_servers [] ds) ≡ heard addr ds)
unfolding knows
discover_servers_lem addr ds = (servers-IsDistinct [] ds tt, knows-servers addr [] ds)
