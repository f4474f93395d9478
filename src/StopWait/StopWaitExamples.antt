-- ===== src/StopWait/StopWaitExamples.antt =====
-- Tests of the stop-and-wait calls, and their theorems at a concrete file.
use cn_assignments.Base.{
  IsNoEnd, freads, ◌≡◌, refl, Bool, true, false, none, some, pos, Bytes, List, [], ◌∷◌, length, map,
  replicate, update, done, codes, starts_with, All, arith,
}
use cn_assignments.StopWait.{
  Table, is_control, data_frame, ack_for, acked, returned, k_socket, k_bind, k_sendto,
}
use cn_assignments.StopWait.Users.{
  pieces, Receiver, Event, lost, dropped, ack_lost, completed, transfer,
}
use cn_assignments.StopWait.Sending.{IsData, IsOpen}
use cn_assignments.StopWait.Rounds.{IsAck, ack, late, other, matching, IsAck-number, k_sendto_ends}
use cn_assignments.StopWait.Steps.{with_ack, IsSend}
use cn_assignments.StopWait.Transfer.{transfer-Ends, transfer_same}
use cn_assignments.StopWait.Closing.{
  eof_turn, fin_turn, say_fin, answered, silent, closing, closing_waits,
}

abbrev any_address : Bytes → Bool
any_address a = true

abbrev fresh : Table
fresh i = record {
  is_bound = false;
  src_ip = [];
  src_port = 0;
  dest_ip = [];
  dest_port = 0;
  next_seq = 7;
}

-- descriptor 3 with number 255
abbrev bound : Table
bound = update fresh 3 (record {
  is_bound = true;
  src_ip = codes "127.0.0.1";
  src_port = 5000;
  dest_ip = codes "127.0.0.1";
  dest_port = 6000;
  next_seq = 255;
})

bound-IsOpen : IsOpen any_address (pos 3) bound
bound-IsOpen = record { is_valid = refl; is_bound = refl; has_address = refl }

-- the calls that make such a socket
opened :
    (k_bind any_address true
      (pos 3)
      (codes "127.0.0.1")
      5000
      (codes "127.0.0.1")
      6000
      (k_socket 1 (pos 3) fresh).1).0
    ≡ pos 0
unfolding k_bind k_socket
opened = refl

hello-IsData : IsData (codes "hello")
unfolding is_control starts_with
hello-IsData = (refl, refl)

world-IsData : IsData (codes "world")
unfolding is_control starts_with
world-IsData = (refl, refl)

hello-IsNoEnd : IsNoEnd (codes "hello")
unfolding starts_with
hello-IsNoEnd = refl

world-IsNoEnd : IsNoEnd (codes "world")
unfolding starts_with
world-IsNoEnd = refl

-- A socket of the protocol takes the datagram of seven bytes that begins with 1 for an ACK.
seven_bytes :
    k_sendto any_address true [] (pos 3) (1 ∷ codes "234567") bound
    ≡ returned (pos 7) bound ((1 ∷ codes "234567") ∷ [])
unfolding k_sendto is_control starts_with
seven_bytes = refl

wrong_number : ¬ IsAck 255 (ack_for 254)
wrong_number a = let e = IsAck-number a in omega arith

k_sendto_ends_example :
    k_sendto any_address true
      (silent ∷ answered (ack_for 254) ∷ answered (ack_for 255) ∷ [])
      (pos 3)
      (codes "hello")
      bound
    ≡ returned (pos 5) (update bound 3 (record (bound 3) { next_seq = 0 })) (
        data_frame 255 (codes "hello")
        ∷ data_frame 255 (codes "hello")
        ∷ data_frame 255 (codes "hello")
        ∷ [])
k_sendto_ends_example =
    k_sendto_ends any_address true (silent ∷ answered (ack_for 254) ∷ []) []
      (answered (ack_for 255)) acked (pos 3) (codes "hello") bound bound-IsOpen hello-IsData
      (late refl refl, (other (ack_for 254) refl refl wrong_number, tt))
      (matching (ack_for 255) refl refl (ack 3 0 (codes "ACK")))

abbrev empty_receiver : Receiver
empty_receiver = record { file = []; buffer = replicate 512 0; is_ended = false; sent = [] }

abbrev repeated : List (Bytes × List Event)
repeated = (codes "hello", lost ∷ ack_lost ∷ []) ∷ (codes "world", dropped ∷ []) ∷ []

repeated-IsSend : All IsSend repeated
repeated-IsSend = (
  (hello-IsData, hello-IsNoEnd, (refl, (refl, tt))),
  ((world-IsData, world-IsNoEnd, (refl, tt)), tt),
)

transfer-Ends_example :
    (table : Table) × (q : Receiver) × (transfer any_address
        (pos 3)
        3
        bound
        []
        (map with_ack repeated)
        bound
        empty_receiver
      ≡ done (completed table q))
    × (q.file ≡ codes "hellohelloworld")
    × (q.is_ended ≡ false)
transfer-Ends_example =
    transfer-Ends any_address (pos 3) 3 bound [] repeated bound empty_receiver bound-IsOpen
      (omega arith) refl repeated-IsSend refl

abbrev whole : List (Bytes × List Event)
whole = (codes "hello", lost ∷ dropped ∷ []) ∷ []

one_piece :
    map (λ (s : Bytes × List Event). s.0) whole ≡ pieces (length (codes "hello")) (codes "hello")
unfolding freads
one_piece = refl

transfer_same_example :
    (table : Table) × (q : Receiver) × (transfer any_address
        (pos 3)
        3
        bound
        []
        (map with_ack whole)
        bound
        empty_receiver
      ≡ done (completed table q))
    × (q.file ≡ codes "hello")
transfer_same_example =
    transfer_same any_address (pos 3) 3 bound [] (codes "hello") whole bound empty_receiver
      bound-IsOpen (omega arith) refl ((hello-IsData, hello-IsNoEnd, (refl, (refl, tt))), tt) refl
      refl one_piece ((refl, (refl, tt)), tt)

closing_example :
    (eof_turn any_address true (pos 3) bound (some (codes "EOF_ACK\0")) false [] []
      ≡ done (true, codes "EOF\0" ∷ []))
    × (ack : Bytes) × (fin_ack : Bytes) × (fin_turn any_address true
          (pos 3)
          bound
          (some (data_frame 255 (codes "FIN\0")))
          false
          []
          []
        ≡ done (true, ack ∷ fin_ack ∷ []))
    × (say_fin any_address (answered ack ∷ []) (pos 3) bound (some fin_ack) true [] []
        ≡ done (some true))
closing_example =
    closing any_address (pos 3) (pos 3) bound bound [] [] [] false true bound-IsOpen bound-IsOpen

closing_waits_example :
    (ack : Bytes) × (fin_ack : Bytes) × (fin_turn any_address true
        (pos 3)
        bound
        (some (data_frame 255 (codes "FIN\0")))
        false
        []
        []
      ≡ done (true, ack ∷ fin_ack ∷ []))
    × (say_fin any_address (answered fin_ack ∷ silent ∷ silent ∷ []) (pos 3) bound none false [] []
        ≡ done none)
closing_waits_example =
    closing_waits any_address (pos 3) (pos 3) bound bound [] [] [] 2 none false bound-IsOpen
      bound-IsOpen
