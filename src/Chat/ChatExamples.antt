-- ===== src/Chat/ChatExamples.antt =====
-- Tests of the chat server, and its theorems at concrete rounds.
use cn_assignments.Base.{
  ℕ, List, length, get_or, none, some, chomp, fgets, print_int, digits_before, ◌+◌, ◌<◌, ◌≡◌, refl,
  false, [], ◌∷◌, arith, ℤ, pos, negsuc, ltb, update,
}
use cn_assignments.Chat.{
  ChatServer, Sent, result, call_for, duplicate, send_all, init_server, accept_client, disconnect,
  receive_number,
}
use cn_assignments.Chat.Client.{typed_number, all_digits, atoi, atoi-typed_number}
use cn_assignments.Chat.Rounds.{IsMax, round_ends}
use cn_assignments.Chat.Stall.{disconnect_stalls}

abbrev two_clients : ChatServer
two_clients = record {
  clientsockfd = λ i. i + 4;
  client_sent = λ i. ltb 0 i;
  client_numbers = λ i. negsuc i;
  numclient = 2;
  round = 1;
}

second_called :
    (accept_client 5 (accept_client 4 init_server).0).1
    ≡ record { to = 4; message = call_for 1 } ∷ record { to = 5; message = call_for 1 } ∷ []
unfolding accept_client send_all
second_called = refl

round_ends_example :
    (m : ℤ) × (k : ℕ) × (t : ChatServer) × (sent : List Sent) × IsMax 2
      (update two_clients.client_numbers 0 (negsuc 7))
      m
      k
    × (receive_number 0 (negsuc 7) two_clients ≡ (t, sent))
    × (length sent ≡ 2)
    × ((j : ℕ) (d : Sent)
        → j < 2
        → get_or sent j d ≡ record { to = j + 4; message = result 1 m (k + 4) })
    × (t.round ≡ 2)
    × ((j : ℕ) → j < 2 → t.client_sent j ≡ false)
round_ends_example =
    round_ends 0 (negsuc 7) two_clients (omega arith) refl (λ j p ne. ground arith) refl

abbrev three_clients : ChatServer
three_clients = record two_clients { numclient = 3 }

disconnect_stalls_example :
    (receive_number 1 (pos 9) (disconnect 0 three_clients) ≡ (
      disconnect 0 three_clients,
      record { to = (disconnect 0 three_clients).clientsockfd 1; message = duplicate 1 } ∷ [],
    ))
    × (receive_number 2 (pos 9) (accept_client 8 (disconnect 0 three_clients)).0 ≡ (
      (accept_client 8 (disconnect 0 three_clients)).0,
      record {
        to = (accept_client 8 (disconnect 0 three_clients)).0.clientsockfd 2;
        message = duplicate 1;
      }
          ∷ [],
    ))
disconnect_stalls_example =
    disconnect_stalls 0 1 2 8 (pos 9) three_clients (omega arith) (omega arith) (omega arith)
      (λ l p ne. ground arith) (omega arith) (omega arith)

letters_unsent : typed_number (b'4' ∷ b'x' ∷ b'\n' ∷ []) ≡ none
unfolding typed_number all_digits chomp fgets
letters_unsent = refl

atoi-typed_number_example :
    (typed_number (b'4' ∷ b'2' ∷ b'\n' ∷ b'7' ∷ []) ≡ some (b'4' ∷ b'2' ∷ []))
    × (atoi (b'4' ∷ b'2' ∷ []) ≡ pos 42)
    × (typed_number (b'-' ∷ b'4' ∷ b'3' ∷ b'\n' ∷ b'7' ∷ []) ≡ none)
unfolding print_int digits_before
atoi-typed_number_example = atoi-typed_number 42 (b'7' ∷ []) (omega arith)
