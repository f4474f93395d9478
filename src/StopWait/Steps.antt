-- ===== src/StopWait/Steps.antt =====
-- Lab 4/asg4: one turn of the loop of user1 with user2 at the other end.
use cn_assignments.Base.{
  IsNoEnd, ℕ, ◌+◌, ◌%◌, ◌≤◌, ◌≡◌, refl, ap, sym, ◌∙◌, arith, Bool, true, false, ℤ, pos_part,
  is_negative, if◌then◌else◌, Bytes, List, [], ◌∷◌, ◌++◌, append_assoc, append-nil, length, map,
  All, update, Outcome, done, ◌>>=◌,
}
use cn_assignments.StopWait.{
  KSocket, Table, Round, payload_size, data_frame, ending, again, acked, Call, returned,
  still_sending, k_sendto,
}
use cn_assignments.StopWait.Users.{
  Receiver, Event, lost, dropped, ack_lost, acknowledged, respond_all, datagram, Transfer, stopped,
  unfinished, transfer,
}
use cn_assignments.StopWait.Sending.{IsData, IsOpen, k_sendto-acked}
use cn_assignments.StopWait.Transmissions.{after, round_of, IsReady, respond_all-after}

-- a transmission that brings the sender no ACK
abbrev pub is_unanswered : Event → Bool
is_unanswered lost = true
is_unanswered dropped = true
is_unanswered ack_lost = true
is_unanswered acknowledged = false

-- what the transmissions of a piece add to the file
abbrev pub written_by : Bytes → List Event → Bytes
written_by piece [] = []
written_by piece (lost ∷ events) = written_by piece events
written_by piece (dropped ∷ events) = written_by piece events
written_by piece (ack_lost ∷ events) = piece ++ written_by piece events
written_by piece (acknowledged ∷ events) = piece ++ written_by piece events

-- A piece with the transmissions before the one that is acknowledged.
abbrev pub with_ack : Bytes × List Event → Bytes × List Event
with_ack (piece, events) = (piece, events ++ acknowledged ∷ [])

abbrev pub all_written : List (Bytes × List Event) → Bytes
all_written [] = []
all_written ((piece, events) ∷ sends) = written_by piece events ++ (piece ++ all_written sends)

abbrev pub IsSend : Bytes × List Event → Type 0
IsSend (piece, events) = IsData piece × IsNoEnd piece × All (λ e. is_unanswered e ≡ true) events

pub after-file :
    (seq : ℕ) (piece : Bytes) (events : List Event) (r : Receiver)
    → (after seq piece events r).file ≡ r.file ++ written_by piece events
after-file seq piece [] r = sym (append-nil r.file)
after-file seq piece (lost ∷ events) r = after-file seq piece events r
after-file seq piece (dropped ∷ events) r = after-file seq piece events r
after-file seq piece (ack_lost ∷ events) r =
    after-file seq piece events _ ∙ append_assoc r.file piece (written_by piece events)
after-file seq piece (acknowledged ∷ events) r =
    after-file seq piece events _ ∙ append_assoc r.file piece (written_by piece events)

pub written_by-ack :
    (piece : Bytes) (events : List Event)
    → written_by piece (events ++ acknowledged ∷ []) ≡ written_by piece events ++ piece
written_by-ack piece [] = append-nil piece
written_by-ack piece (lost ∷ events) = written_by-ack piece events
written_by-ack piece (dropped ∷ events) = written_by-ack piece events
written_by-ack piece (ack_lost ∷ events) =
    ap (λ w. piece ++ w) (written_by-ack piece events)
    ∙ sym (append_assoc piece (written_by piece events) piece)
written_by-ack piece (acknowledged ∷ events) =
    ap (λ w. piece ++ w) (written_by-ack piece events)
    ∙ sym (append_assoc piece (written_by piece events) piece)

round_of-again :
    (seq : ℕ) (events : List Event)
    → All (λ e. is_unanswered e ≡ true) events
    → All (λ r. ending seq r ≡ again) (map (round_of seq) events)
unfolding ending
round_of-again seq [] h = tt
round_of-again seq (lost ∷ events) h = (refl, round_of-again seq events h.1)
round_of-again seq (dropped ∷ events) h = (refl, round_of-again seq events h.1)
round_of-again seq (ack_lost ∷ events) h = (refl, round_of-again seq events h.1)
round_of-again seq (acknowledged ∷ events) h = absurd (ground arith)

pub round_of-acked : (seq : ℕ) → ending seq (round_of seq acknowledged) ≡ acked
unfolding ending
round_of-acked seq = ground arith

map-ack :
    (seq : ℕ) (events : List Event)
    → map (round_of seq) (events ++ acknowledged ∷ [])
      ≡ map (round_of seq) events ++ round_of seq acknowledged ∷ []
map-ack seq [] = refl
map-ack seq (e ∷ events) = ap (λ rs. round_of seq e ∷ rs) (map-ack seq events)

datagram-data_frame :
    (seq : ℕ) (piece : Bytes) → IsData piece → datagram seq piece ≡ data_frame seq piece
unfolding datagram
datagram-data_frame seq piece d = ap (λ (b : Bool). if b then piece else data_frame seq piece) d.0

-- the table after a call that was acknowledged
abbrev pub advanced : ℕ → Table → Table
advanced i table = update table i (record (table i) { next_seq = ((table i).next_seq + 1) % 256 })

update-same {ℓ} : {A : Type ℓ} (f : ℕ → A) (i : ℕ) (v : A) → update f i v i ≡ v
update-same f i v = ground arith

pub IsOpen-advanced :
    (is_address : Bytes → Bool) (sockfd : ℤ) (table : Table)
    → IsOpen is_address sockfd table
    → IsOpen is_address sockfd (advanced (pos_part sockfd) table)
IsOpen-advanced is_address sockfd table o =
    let e = update-same table (pos_part sockfd) _ in
    record {
      is_valid = o.is_valid;
      is_bound = ap (λ (k : KSocket). k.is_bound) e ∙ o.is_bound;
      has_address = ap (λ (k : KSocket). is_address k.dest_ip) e ∙ o.has_address;
    }

pub is_short : (piece : Bytes) → IsData piece → length piece ≤ payload_size
is_short piece d = ground arith

-- what the loop of user1 does after a call
abbrev go_on :
    (Bytes → Bool)
    → ℤ
    → ℕ
    → Table
    → Bytes
    → List (Bytes × List Event)
    → Receiver
    → Call
    → Outcome Transfer
go_on is_address sockfd j partner stale rest q call = elim call [
  | returned value table' fs ↦ elim (is_negative value) [
    | true ↦ done (stopped q)
    | false ↦ transfer is_address sockfd j partner stale rest table' q
  ]
  | still_sending fs ↦ done (unfinished q)
]

pub transfer-step :
    (is_address : Bytes → Bool) (sockfd : ℤ) (j : ℕ) (partner : Table) (stale piece : Bytes)
    (events : List Event) (rest : List (Bytes × List Event)) (table : Table) (r : Receiver)
    → IsOpen is_address sockfd table
    → IsReady is_address j partner piece
    → IsSend (piece, events)
    → r.is_ended ≡ false
    → transfer is_address sockfd j partner stale (with_ack (piece, events) ∷ rest) table r
      ≡ transfer is_address sockfd j partner stale rest
          (advanced (pos_part sockfd) table)
          (after (table (pos_part sockfd)).next_seq piece (events ++ acknowledged ∷ []) r)
unfolding transfer
transfer-step is_address sockfd j partner stale piece events rest table r o c s h =
    let i = pos_part sockfd in
    let seq = (table i).next_seq in
    let all = events ++ acknowledged ∷ [] in
    let end = after seq piece all r in
    let sent =
      k_sendto-acked is_address true (map (round_of seq) events) [] (round_of seq acknowledged)
        sockfd piece table o s.0 (round_of-again seq events s.2) (round_of-acked seq) in
    ap
      (λ (b : Bytes). respond_all is_address j partner stale b all r >>= λ p.
        go_on is_address sockfd j partner stale rest p.0
          (k_sendto is_address true p.1 sockfd piece table))
      (datagram-data_frame seq piece s.0)
    ∙ ap
        (λ (u : Outcome (Receiver × List Round)). u >>= λ p.
          go_on is_address sockfd j partner stale rest p.0
            (k_sendto is_address true p.1 sockfd piece table))
        (respond_all-after is_address j seq partner piece stale all r c h)
    ∙ ap
        (λ (rs : List Round).
          go_on is_address sockfd j partner stale rest end
            (k_sendto is_address true rs sockfd piece table))
        (map-ack seq events)
    ∙ ap (go_on is_address sockfd j partner stale rest end) sent
