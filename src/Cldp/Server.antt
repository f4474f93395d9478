-- ===== src/Cldp/Server.antt =====
-- The loop of the server's main (cldp_server.c): its HELLOs and its answers.
pub mod Answered
mod ServerExamples
use cn_assignments.Base.{
  ℕ, ◌+◌, ◌-◌, ◌≡◌, ◌≢◌, refl, sym, ap, ap₂, ◌∙◌, subst, Bool, true, false, not, ◌&&◌, Option, none,
  some, ltb, ◌==◌, if◌then◌else◌, List, [], ◌∷◌, ◌++◌, All, arith, Bool-cases, inl, inr,
}
use cn_assignments.Cldp.{Packet, Metadata, hello_type, response_type, send_hello, serve, respond}

-- what `recvfrom` meets: a second without a datagram, the signal that ends the server, another
-- failure, or a datagram
pub data Reception : Type 0 where
  silent interrupted failed : Reception
  packet_in : Packet → Reception

-- A turn of the loop meets the time twice, random numbers for a HELLO and for an answer, and an
-- arrival; `metadata` is what the host's functions find in it.
pub record Moment : Type 0 where
  pub now : ℕ
  pub sent_at : ℕ
  pub random1 : ℕ
  pub random2 : ℕ
  pub random3 : ℕ
  pub arrival : Reception
  pub metadata : Metadata

pub record Server : Type 0 where
  pub transaction_id : ℕ
  pub start : ℕ
  pub running : Bool

-- the HELLO of a turn, if one is due
unfoldable pub say_hello : ℕ → Moment → Server → Server × List Packet
say_hello ip_address e s =
    if ltb 10 (e.now - s.start)
    then (
      record s { start = e.sent_at },
      send_hello ip_address s.transaction_id e.random1 e.random2 ∷ [],
    )
    else (s, [])

-- what arrives, and the answer
unfoldable pub receive : Metadata → ℕ → ℕ → Reception → Server → Server × List Packet
receive m ip_address random silent s = (s, [])
receive m ip_address random interrupted s = (record s { running = false }, [])
receive m ip_address random failed s = (record s { running = false }, [])
receive m ip_address random (packet_in p) s =
    let r = serve m ip_address s.transaction_id random p in
    (record s { transaction_id = r.0 }, elim r.1 [ none ↦ [] | some reply ↦ reply ∷ [] ])

unfoldable pub server_turn : ℕ → Moment → Server → Server × List Packet
server_turn ip_address e s =
    let hello = say_hello ip_address e s in
    let more = receive e.metadata ip_address e.random3 e.arrival hello.0 in
    (more.0, hello.1 ++ more.1)

-- the loop, and what it sends
unfoldable pub server_loop : ℕ → List Moment → Server → Server × List Packet
server_loop ip_address [] s = (s, [])
server_loop ip_address (e ∷ moments) s =
    let turn = server_turn ip_address e s in
    let rest = server_loop ip_address moments turn.0 in
    if s.running then (rest.0, turn.1 ++ rest.1) else (s, [])
