-- ===== src/Cldp/Server/Answered.antt =====
-- What the loop of the server sends (cldp_server.c).
use cn_assignments.Base.{
  ℕ, ◌+◌, ◌%◌, ◌&&◌, length, ◌-◌, ◌≡◌, ◌≢◌, refl, sym, ap, ap₂, ◌∙◌, subst, Bool, true, false,
  Option, none, some, ltb, ◌==◌, if◌then◌else◌, List, [], ◌∷◌, ◌++◌, All, append-All, arith, ◌⊎◌,
  inl, inr,
}
use mathlib.Core.List.{filter_map, filter_map-append}
use mathlib.Core.Option.{Option-elim}
use cn_assignments.Cldp.{
  Packet, Metadata, cldp_protocol, query_type, hello_type, response_type, send_hello, serve,
  respond, metadata_value, first_byte, checksum_matches, with_check, htons,
}
use cn_assignments.Cldp.Server.{
  Reception, Moment, Server, say_hello, receive, server_turn, server_loop, silent, interrupted,
  failed, packet_in,
}

-- an arrival after which the loop goes on
abbrev pub GoesOn : Moment → Type 0
GoesOn e = (e.arrival ≢ interrupted) × (e.arrival ≢ failed)

abbrev pub as_answer : Packet → Option Packet
as_answer p = if p.cldp.msg_type == response_type then some p else none

-- The answer that a datagram calls for: if it is of the protocol, has the right checksum and is a
-- query for this server, the value asked for goes back to where the query came from.
abbrev pub called_for : Metadata → ℕ → ℕ → Packet → Option Packet
called_for m ip_address random p =
    let value = metadata_value m (first_byte p.payload) in
    if (p.ip.protocol == cldp_protocol)
      && checksum_matches p.ip
      && (p.cldp.msg_type == query_type)
      && (ip_address == p.ip.daddr)
    then some (record {
      ip = with_check (record (p.ip) {
        saddr = ip_address;
        daddr = p.ip.saddr;
        tot_len = htons (28 + length value);
        id = htons (random % 65535);
      });
      cldp = record (p.cldp) { msg_type = response_type; payload_length = length value % 256 };
      payload = value;
    })
    else none

-- the answer to what arrives, if it is due
abbrev pub due_answer : ℕ → Moment → Option Packet
due_answer ip_address e = elim e.arrival [
  | silent ↦ none
  | interrupted ↦ none
  | failed ↦ none
  | packet_in p ↦ called_for e.metadata ip_address e.random3 p
]

abbrev pub CarriesId : ℕ → Packet → Type 0
CarriesId t p = p.cldp.msg_type ≡ hello_type → p.cldp.transaction_id ≡ t

-- an answer does not depend on the transaction id of the server
serve-called_for :
    (m : Metadata) (ip_address t random : ℕ) (p : Packet)
    → (serve m ip_address t random p).1 ≡ called_for m ip_address random p
unfolding serve respond
serve-called_for m ip_address t random p = ground arith

serve-keeps_id :
    (m : Metadata) (ip_address t random : ℕ) (p : Packet)
    → t ≢ 0
    → (serve m ip_address t random p).0 ≡ t
unfolding serve
serve-keeps_id m ip_address t random p ne = ground arith

serve-cases :
    (m : Metadata) (ip_address t random : ℕ) (p : Packet)
    → ((serve m ip_address t random p).1 ≡ none)
      ⊎ ((serve m ip_address t random p).1 ≡ some (respond m ip_address random p))
unfolding serve
serve-cases m ip_address t random p = ground arith

abbrev pub sent_of : Option Packet → List Packet
sent_of o = elim o [ none ↦ [] | some reply ↦ reply ∷ [] ]

respond-as_answer :
    (m : Metadata) (ip_address random : ℕ) (p : Packet)
    → filter_map as_answer (respond m ip_address random p ∷ []) ≡ respond m ip_address random p ∷ []
unfolding respond filter_map Option-elim
respond-as_answer m ip_address random p = refl

-- every reply is a response
serve-as_answer :
    (m : Metadata) (ip_address t random : ℕ) (p : Packet)
    → filter_map as_answer (sent_of (serve m ip_address t random p).1)
      ≡ sent_of (called_for m ip_address random p)
unfolding filter_map
serve-as_answer m ip_address t random p =
    elim (serve-cases m ip_address t random p) [
      | inl e ↦ ap (λ o. filter_map as_answer (sent_of o)) e ∙ ap sent_of (sym e)
      | inr e ↦
          ap (λ o. filter_map as_answer (sent_of o)) e
          ∙ respond-as_answer m ip_address random p
          ∙ ap sent_of (sym e)
    ]
    ∙ ap sent_of (serve-called_for m ip_address t random p)

serve-CarriesId :
    (m : Metadata) (ip_address t random u : ℕ) (p : Packet)
    → All (CarriesId u) (sent_of (serve m ip_address t random p).1)
unfolding respond
serve-CarriesId m ip_address t random u p = elim (serve-cases m ip_address t random p) [
  | inl e ↦ subst (λ o. All (CarriesId u) (sent_of o)) (sym e) tt
  | inr e ↦ subst (λ o. All (CarriesId u) (sent_of o)) (sym e) ((λ k. absurd (omega arith)), tt)
]

-- What a step leaves of a server: it runs on under its transaction id `t`, and has sent the given
-- answers, and HELLOs that carry `t`.
abbrev pub Kept : ℕ → List Packet → Server × List Packet → Type 0
Kept t replies r =
    (filter_map as_answer r.1 ≡ replies)
    × All (CarriesId t) r.1
    × (r.0.transaction_id ≡ t)
    × (r.0.running ≡ true)

announced-Kept :
    (ip_address t : ℕ) (e : Moment) (s : Server) (b : Bool)
    → t ≢ 0
    → s.transaction_id ≡ t
    → s.running ≡ true
    → Kept t [] (
        if b
        then (
          record s { start = e.sent_at },
          send_hello ip_address s.transaction_id e.random1 e.random2 ∷ [],
        )
        else (s, []))
unfolding send_hello filter_map Option-elim
announced-Kept ip_address t e s true ne q r = (refl, ((λ k. ground arith), tt), q, r)
announced-Kept ip_address t e s false ne q r = (refl, tt, q, r)

received-Kept :
    (m : Metadata) (ip_address t random : ℕ) (a : Reception) (s : Server)
    → t ≢ 0
    → s.transaction_id ≡ t
    → s.running ≡ true
    → (a ≢ interrupted) × (a ≢ failed)
    → Kept t
        (sent_of (elim a [
          | silent ↦ none
          | interrupted ↦ none
          | failed ↦ none
          | packet_in p ↦ called_for m ip_address random p
        ]))
        (receive m ip_address random a s)
unfolding receive filter_map
received-Kept m ip_address t random silent s ne q r g = (refl, tt, q, r)
received-Kept m ip_address t random interrupted s ne q r g = absurd (g.0 refl)
received-Kept m ip_address t random failed s ne q r g = absurd (g.1 refl)
received-Kept m ip_address t random (packet_in p) s ne q r g = (
  serve-as_answer m ip_address s.transaction_id random p,
  serve-CarriesId m ip_address s.transaction_id random t p,
  serve-keeps_id m ip_address s.transaction_id random p (subst (λ k. k ≢ 0) (sym q) ne) ∙ q,
  r,
)

-- the answers that are due, in order
abbrev pub due : ℕ → List Moment → List Packet
due ip_address [] = []
due ip_address (e ∷ moments) = sent_of (due_answer ip_address e) ++ due ip_address moments

append-Kept :
    (t : ℕ) (xs ys : List Packet) (r : Server × List Packet) (next : Server × List Packet)
    → Kept t xs r
    → Kept t ys next
    → Kept t (xs ++ ys) (next.0, r.1 ++ next.1)
append-Kept t xs ys r next h k = (
  filter_map-append as_answer r.1 next.1 ∙ ap₂ (λ us vs. us ++ vs) h.0 k.0,
  append-All (CarriesId t) r.1 next.1 h.1 k.1,
  k.2,
  k.3,
)

turn-Kept :
    (ip_address t : ℕ) (e : Moment) (s : Server)
    → t ≢ 0
    → s.transaction_id ≡ t
    → s.running ≡ true
    → GoesOn e
    → Kept t (sent_of (due_answer ip_address e)) (server_turn ip_address e s)
unfolding server_turn say_hello
turn-Kept ip_address t e s ne q r g =
    let hello = announced-Kept ip_address t e s (ltb 10 (e.now - s.start)) ne q r in
    append-Kept t [] _ (say_hello ip_address e s)
      (receive e.metadata ip_address e.random3 e.arrival (say_hello ip_address e s).0) hello
      (received-Kept e.metadata ip_address t e.random3 e.arrival (say_hello ip_address e s).0 ne
        hello.2 hello.3 g)

loop-step :
    (ip_address : ℕ) (e : Moment) (moments : List Moment) (s : Server)
    → s.running ≡ true
    → server_loop ip_address (e ∷ moments) s ≡ (
      (server_loop ip_address moments (server_turn ip_address e s).0).0,
      (server_turn ip_address e s).1
          ++ (server_loop ip_address moments (server_turn ip_address e s).0).1,
    )
unfolding server_loop
loop-step ip_address e moments s r =
    let turn = server_turn ip_address e s in
    let rest = server_loop ip_address moments turn.0 in
    ap (λ (b : Bool). if b then (rest.0, turn.1 ++ rest.1) else (s, [])) r

loop-Kept :
    (ip_address t : ℕ) (moments : List Moment) (s : Server)
    → t ≢ 0
    → s.transaction_id ≡ t
    → s.running ≡ true
    → All GoesOn moments
    → Kept t (due ip_address moments) (server_loop ip_address moments s)
unfolding server_loop filter_map
loop-Kept ip_address t [] s ne q r g = (refl, tt, q, r)
loop-Kept ip_address t (e ∷ moments) s ne q r g =
    let turn = turn-Kept ip_address t e s ne q r g.0 in
    let next = (server_turn ip_address e s).0 in
    subst (Kept t (due ip_address (e ∷ moments))) (sym (loop-step ip_address e moments s r)) (
      append-Kept t (sent_of (due_answer ip_address e)) (due ip_address moments)
        (server_turn ip_address e s) (server_loop ip_address moments next) turn
        (loop-Kept ip_address t moments next ne turn.2 turn.3 g.1))

-- As long as no signal and no failure ends the loop of a server that has a transaction id, the
-- responses that it sends are exactly the answers that the datagrams that arrive call for, in their
-- order, each with what the host's functions find at the time; it runs on, and keeps its transaction id, which every HELLO carries.
pub server_loop-Kept :
    (ip_address : ℕ) (moments : List Moment) (s : Server)
    → s.transaction_id ≢ 0
    → s.running ≡ true
    → All GoesOn moments
    → Kept s.transaction_id (due ip_address moments) (server_loop ip_address moments s)
server_loop-Kept ip_address moments s ne r g =
    loop-Kept ip_address s.transaction_id moments s ne refl r g
