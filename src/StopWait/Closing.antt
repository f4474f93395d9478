-- ===== src/StopWait/Closing.antt =====
-- Lab 4/asg4/user1.c and user2.c: the end of a connection.
use cn_assignments.Base.{
  ℕ, zero, suc, ◌<◌, ◌≡◌, refl, ap, ◌∙◌, arith, Bool, true, false, ◌&&◌, Option, none, some, ℤ, pos,
  negsuc, pos_part, ltb_ℤ, if◌then◌else◌, Bytes, List, [], ◌∷◌, ◌++◌, length, replicate, drop,
  Outcome, done, ◌>>=◌, codes, starts_with, All,
}
use cn_assignments.StopWait.{
  Table, is_invalid, Round, timed_out, received, is_control, data_frame, ack_for, ending, again,
  Call, returned, still_sending, k_sendto, Delivery, k_recvfrom, message_size, max_ktp_sockets,
}
use cn_assignments.StopWait.Sending.{
  IsData, IsOpen, k_sendto-acked, k_sendto-is_control, k_sendto_waits,
}
use cn_assignments.StopWait.Steps.{round_of-acked}
use cn_assignments.StopWait.Receiving.{k_recvfrom-data_frame}

-- the frames that a call has sent
abbrev sent_by : Call → List Bytes
sent_by (returned value table fs) = fs
sent_by (still_sending fs) = fs

-- `k_recvfrom(...) > 0 && strncmp(buffer, word, ...) == 0`, where the array held `buffer` before
unfoldable pub is_word : Bytes → Bytes → Delivery → Bool
is_word word buffer d =
    ltb_ℤ (pos 0) d.value && starts_with word (d.written ++ drop (length d.written) buffer)

-- One turn of user1's loop that sends "EOF": whether the answer has come, and what the turn sends.
unfoldable pub eof_turn :
    (Bytes → Bool)
    → Bool
    → ℤ
    → Table
    → Option Bytes
    → Bool
    → Bytes
    → Bytes
    → Outcome (Bool × List Bytes)
eof_turn is_address is_sent sockfd table input dropped stale buffer =
    k_recvfrom is_address (pos_part sockfd) table input dropped stale 64 >>= λ d. done (
      is_word (codes "EOF_ACK") buffer d,
      sent_by (k_sendto is_address is_sent [] sockfd (codes "EOF\0") table) ++ d.sent,
    )

-- One turn of user1's loop that waits for "FIN".
unfoldable pub fin_turn :
    (Bytes → Bool)
    → Bool
    → ℤ
    → Table
    → Option Bytes
    → Bool
    → Bytes
    → Bytes
    → Outcome (Bool × List Bytes)
fin_turn is_address is_sent sockfd table input dropped stale buffer =
    k_recvfrom is_address (pos_part sockfd) table input dropped stale 64 >>= λ d. done (
      if is_word (codes "FIN") buffer d
      then (
        true,
        d.sent ++ sent_by (k_sendto is_address is_sent [] sockfd (codes "FIN_ACK\0") table),
      )
      else (false, d.sent))

-- One turn of user2's loop that sends "FIN"; `none` while `k_sendto` has not returned.
unfoldable pub say_fin :
    (Bytes → Bool)
    → List Round
    → ℤ
    → Table
    → Option Bytes
    → Bool
    → Bytes
    → Bytes
    → Outcome (Option Bool)
say_fin is_address rounds sockfd table input dropped stale buffer =
    elim (k_sendto is_address true rounds sockfd (codes "FIN\0") table) [
      | returned value table' fs ↦
          k_recvfrom is_address (pos_part sockfd) table' input dropped stale message_size >>= λ d.
          done (some (is_word (codes "FIN_ACK") buffer d))
      | still_sending fs ↦ done none
    ]

in_table : (sockfd : ℤ) → is_invalid sockfd ≡ false → pos_part sockfd < max_ktp_sockets
in_table (pos n) h = ground arith
in_table (negsuc n) h = absurd (ground arith)

-- The four bytes of user2's "FIN" are a data message.
fin-IsData : IsData (codes "FIN\0")
unfolding is_control starts_with
fin-IsData = (refl, refl)

eof_turn-eof_ack :
    (is_address : Bytes → Bool) (sockfd : ℤ) (table : Table) (stale buffer : Bytes) (dropped : Bool)
    → IsOpen is_address sockfd table
    → eof_turn is_address true sockfd table (some (codes "EOF_ACK\0")) dropped stale buffer
      ≡ done (true, codes "EOF\0" ∷ [])
unfolding eof_turn k_recvfrom k_sendto is_word is_control starts_with
eof_turn-eof_ack is_address sockfd table stale buffer dropped o =
    ap (λ (c : Call). done (true, sent_by c ++ []))
      (k_sendto-is_control is_address [] sockfd (codes "EOF\0") table o refl)

fin_turn-fin :
    (is_address : Bytes → Bool) (sockfd : ℤ) (seq : ℕ) (table : Table) (stale buffer : Bytes)
    → IsOpen is_address sockfd table
    → fin_turn is_address true sockfd table
        (some (data_frame seq (codes "FIN\0")))
        false
        stale
        buffer
      ≡ done (true, ack_for seq ∷ codes "FIN_ACK\0" ∷ [])
unfolding fin_turn is_word is_control starts_with
fin_turn-fin is_address sockfd seq table stale buffer o =
    let i = pos_part sockfd in
    ap
      (λ (u : Outcome Delivery). u >>= λ d. done (
        if is_word (codes "FIN") buffer d
        then (
          true,
          d.sent ++ sent_by (k_sendto is_address true [] sockfd (codes "FIN_ACK\0") table),
        )
        else (false, d.sent)))
      (k_recvfrom-data_frame is_address i seq 64 table (codes "FIN\0") stale
        (in_table sockfd o.is_valid) o.has_address (omega arith) (omega arith))
    ∙ ap (λ (c : Call). done (true, ack_for seq ∷ sent_by c))
        (k_sendto-is_control is_address [] sockfd (codes "FIN_ACK\0") table o refl)

say_fin-fin_ack :
    (is_address : Bytes → Bool) (sockfd : ℤ) (table : Table) (stale buffer : Bytes) (dropped : Bool)
    → IsOpen is_address sockfd table
    → say_fin is_address
        ((record { is_sent = true; reply = received (ack_for (table (pos_part sockfd)).next_seq) })
          ∷ [])
        sockfd
        table
        (some (codes "FIN_ACK\0"))
        dropped
        stale
        buffer
      ≡ done (some true)
unfolding say_fin is_word starts_with k_recvfrom
say_fin-fin_ack is_address sockfd table stale buffer dropped o =
    ap
      (λ (c : Call). elim c [
        | returned value table' fs ↦
            k_recvfrom is_address (pos_part sockfd) table' (some (codes "FIN_ACK\0")) dropped stale
              message_size
            >>= λ d. done (some (is_word (codes "FIN_ACK") buffer d))
        | still_sending fs ↦ done none
      ])
      (k_sendto-acked is_address true [] [] _ sockfd (codes "FIN\0") table o fin-IsData tt
        (round_of-acked (table (pos_part sockfd)).next_seq))

abbrev pub answered : Bytes → Round
answered b = record { is_sent = true; reply = received b }

abbrev pub silent : Round
silent = record { is_sent = true; reply = timed_out }

-- On two open sockets a connection ends after one turn of each loop when nothing is lost: the answer
-- "EOF_ACK" ends user1's first loop, user2's "FIN" in its frame ends the second one with two answers,
-- and these two, in their order, end user2's.
pub closing :
    (is_address : Bytes → Bool) (s1 s2 : ℤ) (table1 table2 : Table) (stale buffer1 buffer2 : Bytes)
    (dropped1 dropped2 : Bool)
    → IsOpen is_address s1 table1
    → IsOpen is_address s2 table2
    → let frame = data_frame (table2 (pos_part s2)).next_seq (codes "FIN\0") in
      (eof_turn is_address true s1 table1 (some (codes "EOF_ACK\0")) dropped1 stale buffer1
        ≡ done (true, codes "EOF\0" ∷ []))
      × (ack : Bytes) × (fin_ack : Bytes) × (fin_turn is_address true s1 table1
            (some frame)
            false
            stale
            buffer1
          ≡ done (true, ack ∷ fin_ack ∷ []))
      × (say_fin is_address (answered ack ∷ []) s2 table2 (some fin_ack) dropped2 stale buffer2
          ≡ done (some true))
closing is_address s1 s2 table1 table2 stale buffer1 buffer2 dropped1 dropped2 o p = (
  eof_turn-eof_ack is_address s1 table1 stale buffer1 dropped1 o,
  ack_for (table2 (pos_part s2)).next_seq,
  codes "FIN_ACK\0",
  fin_turn-fin is_address s1 (table2 (pos_part s2)).next_seq table1 stale buffer1 o,
  say_fin-fin_ack is_address s2 table2 stale buffer2 dropped2 p,
)

silent-again : (seq n : ℕ) → All (λ q. ending seq q ≡ again) (replicate n silent)
unfolding ending
silent-again seq zero = tt
silent-again seq (suc n) = (refl, silent-again seq n)

fin_ack-again : (seq : ℕ) → ending seq (answered (codes "FIN_ACK\0")) ≡ again
unfolding ending
fin_ack-again seq = ground arith

-- On two open sockets, if of user1's two answers to "FIN" the first one, the ACK, is lost, user1's
-- loop has ended, but user2 is still inside its call after any number of further rounds without an
-- answer: "FIN_ACK" is read there as a wrong ACK.
pub closing_waits :
    (is_address : Bytes → Bool) (s1 s2 : ℤ) (table1 table2 : Table) (stale buffer1 buffer2 : Bytes)
    (n : ℕ) (input : Option Bytes) (dropped : Bool)
    → IsOpen is_address s1 table1
    → IsOpen is_address s2 table2
    → let frame = data_frame (table2 (pos_part s2)).next_seq (codes "FIN\0") in
      (ack : Bytes) × (fin_ack : Bytes) × (fin_turn is_address true s1 table1
          (some frame)
          false
          stale
          buffer1
        ≡ done (true, ack ∷ fin_ack ∷ []))
      × (say_fin is_address
            (answered fin_ack ∷ replicate n silent)
            s2
            table2
            input
            dropped
            stale
            buffer2
          ≡ done none)
unfolding say_fin
closing_waits is_address s1 s2 table1 table2 stale buffer1 buffer2 n input dropped o p =
    let seq = (table2 (pos_part s2)).next_seq in
    (
      ack_for seq,
      codes "FIN_ACK\0",
      fin_turn-fin is_address s1 seq table1 stale buffer1 o,
      ap
          (λ (c : Call). elim c [
            | returned value table' fs ↦
                k_recvfrom is_address (pos_part s2) table' input dropped stale message_size >>= λ d.
                done (some (is_word (codes "FIN_ACK") buffer2 d))
            | still_sending fs ↦ done none
          ])
          (k_sendto_waits is_address true (answered (codes "FIN_ACK\0") ∷ replicate n silent) s2
            (codes "FIN\0") table2 p fin-IsData (fin_ack-again seq, silent-again seq n)),
    )
