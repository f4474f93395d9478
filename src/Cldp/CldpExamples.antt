-- ===== src/Cldp/CldpExamples.antt =====
-- Tests of the lookup protocol, and its theorems at concrete datagrams.
use cn_assignments.Base.{◌-◌, ℕ, ◌≡◌, refl, true, [], ◌∷◌, codes, some, arith, ◌⊎◌}
use cn_assignments.Cldp.{
  with_check, IpHeader, Packet, Node, Metadata, knows, query, serve, respond, checksum_matches,
  words, sum_words, fold_carries, calculate_checksum, send_hello, discover_servers, ip_header,
  cldp_protocol, query_type, htons,
}
use cn_assignments.Cldp.Checksum.{checksum_detects}
use cn_assignments.Cldp.OnesComplement.{ones_sum, blank, checksum-ones_sum}
use cn_assignments.Cldp.Nodes.{IsDistinct, discover_servers_lem}
use cn_assignments.Cldp.Exchange.{serve_answers}

abbrev metadata : Metadata
metadata = record {
  hostname = codes "host";
  systime = codes "2025-01-02 03:04:05";
  cpuload = codes "Load";
}

abbrev server : Node
server = record { tid = 0; dest_addr = 16777343 }

abbrev asked : Packet
asked = query 33554559 1 5 6 server

asked_served :
    serve metadata 16777343 0 9 asked ≡ (htons 6, some (respond metadata 16777343 9 asked))
unfolding serve checksum_matches ip_header calculate_checksum words sum_words fold_carries
asked_served = refl

serve_answers_example :
    (asked.ip.protocol ≡ cldp_protocol)
    × (checksum_matches asked.ip ≡ true)
    × (asked.cldp.msg_type ≡ query_type)
    × (asked.ip.daddr ≡ 16777343)
    × ((respond metadata 16777343 9 asked).ip.daddr ≡ asked.ip.saddr)
    × ((respond metadata 16777343 9 asked).ip.saddr ≡ 16777343)
    × (checksum_matches (respond metadata 16777343 9 asked).ip ≡ true)
serve_answers_example =
    serve_answers metadata 16777343 0 9 asked (respond metadata 16777343 9 asked) (htons 6)
      asked_served

discover_servers_lem_example :
    IsDistinct (discover_servers [] ((28, send_hello 7 0 1 2) ∷ (28, send_hello 7 0 3 4) ∷ []))
    × (knows 7 (discover_servers [] ((28, send_hello 7 0 1 2) ∷ (28, send_hello 7 0 3 4) ∷ []))
        ≡ true)
unfolding send_hello ip_header
discover_servers_lem_example =
    discover_servers_lem 7 ((28, send_hello 7 0 1 2) ∷ (28, send_hello 7 0 3 4) ∷ [])

-- headers that differ in the word `id`
abbrev header : ℕ → IpHeader
header id = record {
  version_ihl = 69;
  tos = 0;
  tot_len = 7168;
  id = id;
  frag_off = 0;
  ttl = 64;
  protocol = 253;
  check = 0;
  saddr = 16777343;
  daddr = 33554559;
}

checksum_detects_example :
    (◌≡◌ {A = ℕ} 0 65535)
    ⊎ ((◌≡◌ {A = ℕ} 0 0) × (◌≡◌ {A = ℕ} 65535 65535))
    ⊎ ((◌≡◌ {A = ℕ} 0 65535) × (◌≡◌ {A = ℕ} 65535 0))
unfolding words calculate_checksum sum_words fold_carries
checksum_detects_example =
    checksum_detects (header 0) (header 65535) (69 ∷ 7168 ∷ [])
      (0 ∷ 64832 ∷ 0 ∷ 127 ∷ 256 ∷ 127 ∷ 512 ∷ []) 0 65535 refl refl (ground arith) (ground arith)
      (omega arith) (omega arith) refl

checksum-ones_sum_example :
    ((with_check (header 7)).check ≡ 65535 - ones_sum 0 (words (blank (header 7))))
    × (ones_sum 0 (words (with_check (header 7))) ≡ 65535)
unfolding words
checksum-ones_sum_example = checksum-ones_sum (header 7) (ground arith)
