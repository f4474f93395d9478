-- ===== src/Cldp.antt =====
-- Lab 7: the lookup protocol of cldp_server.c and cldp_client.c over raw IP. The fields hold what the
-- memory of a little-endian host holds.
pub mod Checksum
pub mod OnesComplement
pub mod Nodes
pub mod Exchange
pub mod Client
pub mod Server
mod CldpExamples
use cn_assignments.Base.{
  ℕ, zero, suc, ◌+◌, ◌-◌, ◌*◌, ◌/◌, ◌%◌, ◌^◌, Bool, true, false, not, ◌&&◌, ◌||◌, Option, none,
  some, ltb, leb, ◌==◌, if◌then◌else◌, Bytes, List, [], ◌∷◌, ◌++◌, length, take, codes,
}

abbrev pub cldp_protocol : ℕ
cldp_protocol = 253

abbrev pub hello_type : ℕ
hello_type = 1

abbrev pub query_type : ℕ
query_type = 2

abbrev pub response_type : ℕ
response_type = 3

-- `struct iphdr`; `version_ihl` is its first byte
pub record IpHeader : Type 0 where
  pub version_ihl : ℕ
  pub tos : ℕ
  pub tot_len : ℕ
  pub id : ℕ
  pub frag_off : ℕ
  pub ttl : ℕ
  pub protocol : ℕ
  pub check : ℕ
  pub saddr : ℕ
  pub daddr : ℕ

pub record CldpHeader : Type 0 where
  pub msg_type : ℕ
  pub payload_length : ℕ
  pub transaction_id : ℕ
  pub reserved : ℕ

-- a datagram as it lies in the buffer: the headers, and the bytes behind them
pub record Packet : Type 0 where
  pub ip : IpHeader
  pub cldp : CldpHeader
  pub payload : Bytes

-- `htons` and `ntohs`
abbrev pub htons : ℕ → ℕ
htons n = n % 256 * 256 + n / 256 % 256

-- the ten 16-bit words of an IP header
unfoldable pub words : IpHeader → List ℕ
words h =
    (h.version_ihl + 256 * h.tos)
    ∷ h.tot_len
    ∷ h.id
    ∷ h.frag_off
    ∷ (h.ttl + 256 * h.protocol)
    ∷ h.check
    ∷ h.saddr % 65536
    ∷ h.saddr / 65536
    ∷ h.daddr % 65536
    ∷ h.daddr / 65536
    ∷ []

-- the sum of the words as a 32-bit integer
unfoldable pub sum_words : ℕ → List ℕ → ℕ
sum_words sum [] = sum
sum_words sum (w ∷ ws) = sum_words ((sum + w) % 2 ^ 32) ws

-- the two folds of the carries, and the complement in 16 bits
unfoldable pub fold_carries : ℕ → ℕ
fold_carries sum =
    let once = (sum / 65536 + sum % 65536) % 2 ^ 32 in
    let twice = (once + once / 65536) % 2 ^ 32 in 65535 - twice % 65536

-- `calculate_checksum` of an IP header
unfoldable pub calculate_checksum : IpHeader → ℕ
calculate_checksum h = fold_carries (sum_words 0 (words h))

abbrev pub with_check : IpHeader → IpHeader
with_check h = record h { check = calculate_checksum (record h { check = 0 }) }

-- The test that server and client make: the sum anew with a zero in place of the checksum.
unfoldable pub checksum_matches : IpHeader → Bool
checksum_matches h = h.check == calculate_checksum (record h { check = 0 })

-- the fields that every sender sets; `id` is the random number
unfoldable pub ip_header : ℕ → ℕ → ℕ → ℕ → IpHeader
ip_header tot_len id saddr daddr = with_check (record {
  version_ihl = 0x45;
  tos = 0;
  tot_len = htons tot_len;
  id = htons (id % 65535);
  frag_off = 0;
  ttl = 64;
  protocol = cldp_protocol;
  check = 0;
  saddr = saddr;
  daddr = daddr;
})

-- 255.255.255.255
abbrev pub broadcast : ℕ
broadcast = 4294967295

-- The HELLO of a server; `transaction_id` is its global, 0 before the first query.
unfoldable pub send_hello : ℕ → ℕ → ℕ → ℕ → Packet
send_hello ip_address transaction_id random1 random2 = record {
  ip = ip_header 28 random1 ip_address broadcast;
  cldp = record {
    msg_type = hello_type;
    payload_length = 0;
    transaction_id = if not (transaction_id == 0) then transaction_id else htons (random2 % 65535);
    reserved = 0;
  };
  payload = [];
}

-- what the server's functions find: the host's name, the time, and the load
pub record Metadata : Type 0 where
  pub hostname : Bytes
  pub systime : Bytes
  pub cpuload : Bytes

unfoldable pub metadata_value : Metadata → ℕ → Bytes
metadata_value m metadata_type =
    if metadata_type == 1
    then take 255 m.hostname
    else if metadata_type == 2
    then take 19 m.systime
    else if metadata_type == 3
    then take 32 m.cpuload
    else codes "Invalid query"

abbrev pub first_byte : Bytes → ℕ
first_byte [] = 0
first_byte (c ∷ cs) = c

-- the IP header of an answer, before its checksum
abbrev pub response_header : Metadata → ℕ → ℕ → Packet → IpHeader
response_header m ip_address random p = record (p.ip) {
  daddr = p.ip.saddr;
  saddr = ip_address;
  tot_len = htons (28 + length (metadata_value m (first_byte p.payload)));
  id = htons (random % 65535);
}

-- the answer to a query, in the buffer of the query; the headers keep what is not set
unfoldable pub respond : Metadata → ℕ → ℕ → Packet → Packet
respond m ip_address random p =
    let value = metadata_value m (first_byte p.payload) in
    record {
      ip = with_check (response_header m ip_address random p);
      cldp = record (p.cldp) { msg_type = response_type; payload_length = length value % 256 };
      payload = value;
    }

-- A turn of the server's loop on a datagram: its new transaction id, and the answer, if any.
unfoldable pub serve : Metadata → ℕ → ℕ → ℕ → Packet → ℕ × Option Packet
serve m ip_address transaction_id random p =
    if not (p.ip.protocol == cldp_protocol)
    then (transaction_id, none)
    else if not (checksum_matches p.ip)
    then (transaction_id, none)
    else if not (p.cldp.msg_type == query_type)
    then (transaction_id, none)
    else if not (ip_address == p.ip.daddr)
    then (transaction_id, none)
    else (
      if transaction_id == 0 then p.cldp.transaction_id else transaction_id,
      some (respond m ip_address random p),
    )

-- a server that the client knows; `tid` is 0 before the first query
pub record Node : Type 0 where
  pub tid : ℕ
  pub dest_addr : ℕ

unfoldable pub knows : ℕ → List Node → Bool
knows addr [] = false
knows addr (n ∷ nodes) = (n.dest_addr == addr) || knows addr nodes

-- A datagram in `discover_servers`; `size` is what `recvfrom` returned.
unfoldable pub discover : List Node → ℕ → Packet → List Node
discover nodes size p =
    if ltb size 28
    then nodes
    else if not (p.ip.protocol == cldp_protocol) || not (p.cldp.msg_type == hello_type)
    then nodes
    else if knows p.ip.saddr nodes
    then nodes
    else record { tid = 0; dest_addr = p.ip.saddr } ∷ nodes

-- the datagrams until the discovery ends
unfoldable pub discover_servers : List Node → List (ℕ × Packet) → List Node
discover_servers nodes [] = nodes
discover_servers nodes (d ∷ ds) = discover_servers (discover nodes d.0 d.1) ds

-- the transaction id of a query, as a number of the host
abbrev pub query_tid : Node → ℕ → ℕ
query_tid n random = if n.tid == 0 then random % 65535 else n.tid

abbrev pub query : ℕ → ℕ → ℕ → ℕ → Node → Packet
query ip_address metadata_type random1 random2 n = record {
  ip = ip_header 29 random1 ip_address n.dest_addr;
  cldp = record {
    msg_type = query_type;
    payload_length = 1;
    transaction_id = htons (query_tid n random2);
    reserved = 0;
  };
  payload = metadata_type ∷ [];
}

-- The loop of `send_query`, where the random numbers of node `i` are `random i`.
unfoldable pub send_query : ℕ → ℕ → (ℕ → ℕ × ℕ) → ℕ → List Node → List Node × List Packet
send_query ip_address metadata_type random i [] = ([], [])
send_query ip_address metadata_type random i (n ∷ nodes) =
    let rest = send_query ip_address metadata_type random (i + 1) nodes in
    (
      record n { tid = query_tid n (random i).1 } ∷ rest.0,
      query ip_address metadata_type (random i).0 (random i).1 n ∷ rest.1,
    )

-- What the client prints of a datagram, if anything. The value is a text of up to 255 bytes, which
-- the source copies by the length in the header.
unfoldable pub process_response : ℕ → List Node → Packet → Option Bytes
process_response ip_address nodes p =
    if not (p.ip.daddr == ip_address)
    then none
    else if not (p.ip.protocol == cldp_protocol)
    then none
    else if not (checksum_matches p.ip)
    then none
    else if ip_address == p.ip.saddr
    then none
    else if not (knows p.ip.saddr nodes)
    then none
    else if p.cldp.msg_type == response_type
    then some (take p.cldp.payload_length p.payload)
    else none
