-- ===== src/Cldp/Exchange.antt =====
-- A query and its answer.
use cn_assignments.Base.{
  ℕ, zero, suc, ◌%◌, ◌≤◌, ◌<◌, ◌≡◌, ◌≢◌, refl, sym, ap, ◌∙◌, Bool, true, false, not, Option, none,
  some, Bytes, List, [], ◌∷◌, length, take, length-take, arith, ◌==◌, eq→==, ==→eq, if◌then◌else◌,
}
use cn_assignments.Cldp.{
  Packet, Node, Metadata, knows, query, serve, respond, response_header, metadata_value,
  process_response, checksum_matches, ip_header, cldp_protocol, query_type, htons,
}
use cn_assignments.Cldp.Checksum.{with_check_matches}

take-all : (n : ℕ) (xs : Bytes) → length xs ≤ n → take n xs ≡ xs
take-all zero [] h = refl
take-all zero (x ∷ xs) h = absurd (omega arith)
take-all (suc n) [] h = refl
take-all (suc n) (x ∷ xs) h = ap (λ t. x ∷ t) (take-all n xs (omega arith))

if-short :
    (b : Bool) (xs ys : Bytes)
    → length xs < 256
    → length ys < 256
    → length (if b then xs else ys) < 256
if-short true xs ys p q = p
if-short false xs ys p q = q

-- every value fits the length field
value-short : (m : Metadata) (t : ℕ) → length (metadata_value m t) < 256
unfolding metadata_value
value-short m t = if-short (t == 1) _ _ (omega (arith, length-take 255 m.hostname)) (
    if-short (t == 2) _ _ (omega (arith, length-take 19 m.systime))
      (if-short (t == 3) _ _ (omega (arith, length-take 32 m.cpuload)) (omega arith)))

-- the four tests of the server
abbrev guards : Bool → Bool → Bool → Bool → ℕ → ℕ → Packet → ℕ × Option Packet
guards a b c d t u r =
    if not a
    then (t, none)
    else if not b
    then (t, none)
    else if not c
    then (t, none)
    else if not d
    then (t, none)
    else (u, some r)

guards-passed :
    (a b c d : Bool) (t u v : ℕ) (r s : Packet)
    → guards a b c d t u r ≡ (v, some s)
    → (a ≡ true) × (b ≡ true) × (c ≡ true) × (d ≡ true) × (r ≡ s)
guards-passed a b c d t u v r s e = ground arith

guards-pass :
    (a b c d : Bool) (t u : ℕ) (r : Packet)
    → a ≡ true
    → b ≡ true
    → c ≡ true
    → d ≡ true
    → guards a b c d t u r ≡ (u, some r)
guards-pass a b c d t u r p q x y = ground arith

-- What the server answers has the right protocol and checksum and is a query for
-- the server's address; the answer goes back to where the query came from with a right checksum.
pub serve_answers :
    (m : Metadata) (ip_address tid random : ℕ) (p reply : Packet) (tid' : ℕ)
    → serve m ip_address tid random p ≡ (tid', some reply)
    → (p.ip.protocol ≡ cldp_protocol)
      × (checksum_matches p.ip ≡ true)
      × (p.cldp.msg_type ≡ query_type)
      × (p.ip.daddr ≡ ip_address)
      × (reply.ip.daddr ≡ p.ip.saddr)
      × (reply.ip.saddr ≡ ip_address)
      × (checksum_matches reply.ip ≡ true)
unfolding serve respond
serve_answers m ip_address tid random p reply tid' e =
    let g =
      guards-passed (p.ip.protocol == cldp_protocol) (checksum_matches p.ip)
        (p.cldp.msg_type == query_type) (ip_address == p.ip.daddr) tid
        (if tid == 0 then p.cldp.transaction_id else tid) tid' (respond m ip_address random p) reply
        e in
    let same = g.4 in
    (
      ==→eq p.ip.protocol 253 g.0,
      g.1,
      ==→eq p.cldp.msg_type 2 g.2,
      sym (==→eq ip_address p.ip.daddr g.3),
      sym (ap (λ (r : Packet). r.ip.daddr) same),
      sym (ap (λ (r : Packet). r.ip.saddr) same),
      ap (λ (r : Packet). checksum_matches r.ip) (sym same)
          ∙ with_check_matches (response_header m ip_address random p),
    )

-- A response with a right checksum from a known server is printed as it was sent.
response_printed :
    (client : ℕ) (nodes : List Node) (p : Packet)
    → p.ip.daddr ≡ client
    → p.ip.protocol ≡ 253
    → checksum_matches p.ip ≡ true
    → client ≢ p.ip.saddr
    → knows p.ip.saddr nodes ≡ true
    → p.cldp.msg_type ≡ 3
    → p.cldp.payload_length ≡ length p.payload
    → process_response client nodes p ≡ some p.payload
unfolding process_response
response_printed client nodes p a b c d e f g =
    let t = ap (λ k. take k p.payload) g ∙ take-all (length p.payload) p.payload (omega arith) in
    ground arith

-- A query that send_query makes for a known server is answered by that server, and the client prints
-- exactly the value that was asked for, if the two have different addresses.
pub query_answered :
    (m : Metadata) (client tid metadata_type random1 random2 random3 : ℕ) (n : Node)
    (nodes : List Node)
    → knows n.dest_addr nodes ≡ true
    → client ≢ n.dest_addr
    → (tid' : ℕ) × (reply : Packet) × (serve m n.dest_addr tid random3
          (query client metadata_type random1 random2 n)
        ≡ (tid', some reply))
      × (process_response client nodes reply ≡ some (metadata_value m metadata_type))
unfolding serve respond ip_header
query_answered m client tid metadata_type random1 random2 random3 n nodes known other =
    let q = query client metadata_type random1 random2 n in
    let cm = with_check_matches (record {
      version_ihl = 0x45;
      tos = 0;
      tot_len = htons 29;
      id = htons (random1 % 65535);
      frag_off = 0;
      ttl = 64;
      protocol = cldp_protocol;
      check = 0;
      saddr = client;
      daddr = n.dest_addr;
    }) in
    let r = respond m n.dest_addr random3 q in
    (
      if tid == 0 then q.cldp.transaction_id else tid,
      r,
      guards-pass (q.ip.protocol == cldp_protocol) (checksum_matches q.ip)
          (q.cldp.msg_type == query_type) (n.dest_addr == q.ip.daddr) tid
          (if tid == 0 then q.cldp.transaction_id else tid) r refl cm refl (eq→== _ _ refl),
      response_printed client nodes r refl refl
          (with_check_matches (response_header m n.dest_addr random3 q)) other known refl
          (omega (arith, value-short m metadata_type)),
    )
