-- ===== src/StopWait/Sending.antt =====
-- Lab 4/asg4/ksocket.c: how the loop of k_sendto ends.
use cn_assignments.Base.{
  ℕ, zero, suc, ◌+◌, ◌%◌, ◌/◌, ◌≡◌, ◌≢◌, refl, ap, sym, ◌∙◌, arith, Bool, true, false, not, ◌||◌, ℤ,
  pos, minus_one, pos_part, ltb, if◌then◌else◌, Bytes, List, [], ◌∷◌, ◌++◌, append-nil, length,
  replicate, All, update,
}
use cn_assignments.StopWait.{
  Table, Round, is_invalid, is_control, is_ack_frame, payload_size, data_frame, ending, Ending,
  unsent, broken, again, acked, Loop, finished, failed, waiting, sent_before, send_until, Call,
  returned, still_sending, send_data, k_sendto,
}

-- after the frames of rounds that went without an ACK
abbrev resent : ℕ → Bytes → Loop → Loop
resent zero frame l = l
resent (suc n) frame l = sent_before frame (resent n frame l)

again-step :
    (e : Ending) (frame : Bytes) (l : Loop)
    → e ≡ again
    → (elim e [
      | unsent ↦ failed []
      | broken ↦ failed (frame ∷ [])
      | again ↦ sent_before frame l
      | acked ↦ finished (frame ∷ [])
    ])
      ≡ sent_before frame l
again-step e frame l h = ground arith

send_until-again :
    (seq : ℕ) (frame : Bytes) (misses rest : List Round)
    → All (λ r. ending seq r ≡ again) misses
    → send_until seq frame (misses ++ rest)
      ≡ resent (length misses) frame (send_until seq frame rest)
unfolding send_until
send_until-again seq frame [] rest h = refl
send_until-again seq frame (r ∷ misses) rest h =
    again-step (ending seq r) frame (send_until seq frame (misses ++ rest)) h.0
    ∙ ap (sent_before frame) (send_until-again seq frame misses rest h.1)

pub acked_again : acked ≢ again
acked_again h = ground arith

resent-finished :
    (n : ℕ) (frame : Bytes) (fs : List Bytes)
    → resent n frame (finished fs) ≡ finished (replicate n frame ++ fs)
resent-finished zero frame fs = refl
resent-finished (suc n) frame fs = ap (sent_before frame) (resent-finished n frame fs)

resent-failed :
    (n : ℕ) (frame : Bytes) (fs : List Bytes)
    → resent n frame (failed fs) ≡ failed (replicate n frame ++ fs)
resent-failed zero frame fs = refl
resent-failed (suc n) frame fs = ap (sent_before frame) (resent-failed n frame fs)

resent-waiting : (n : ℕ) (frame : Bytes) → resent n frame (waiting []) ≡ waiting (replicate n frame)
resent-waiting zero frame = refl
resent-waiting (suc n) frame = ap (sent_before frame) (resent-waiting n frame)

-- what send_data makes of the loop
abbrev call_of : ℕ → Bytes → Table → Loop → Call
call_of i message table (finished fs) =
    returned (pos (length message))
      (update table i (record (table i) { next_seq = ((table i).next_seq + 1) % 256 })) fs
call_of i message table (failed fs) = returned minus_one table fs
call_of i message table (waiting fs) = still_sending fs

send_data-call_of :
    (i : ℕ) (message : Bytes) (rounds : List Round) (table : Table)
    → send_data i message rounds table
      ≡ call_of i message table
          (send_until (table i).next_seq (data_frame (table i).next_seq message) rounds)
unfolding send_data
send_data-call_of i message rounds table =
    loop-cases (send_until (table i).next_seq (data_frame (table i).next_seq message) rounds)
  where
    loop-cases :
        (l : Loop)
        → (elim l [
          | finished fs ↦
              returned
                (pos (length message))
                (update table i (record (table i) { next_seq = ((table i).next_seq + 1) % 256 }))
                fs
          | failed fs ↦ returned minus_one table fs
          | waiting fs ↦ still_sending fs
        ])
          ≡ call_of i message table l
    loop-cases (finished fs) = refl
    loop-cases (failed fs) = refl
    loop-cases (waiting fs) = refl

-- A data message: nothing that the programs use as a control message, no ACK frame, and not too long.
abbrev pub IsData : Bytes → Type 0
IsData message =
    (is_control message || is_ack_frame message ≡ false)
    × (ltb payload_size (length message) ≡ false)

-- A valid and bound socket, whose partner has an address.
pub record IsOpen (is_address : Bytes → Bool) (sockfd : ℤ) (table : Table) : Type 0 where
  pub is_valid : is_invalid sockfd ≡ false
  pub is_bound : (table (pos_part sockfd)).is_bound ≡ true
  pub has_address : is_address (table (pos_part sockfd)).dest_ip ≡ true

five_tests {ℓ} :
    {A : Type ℓ} (a b c d e : Bool) (u v w x y z : A)
    → a ≡ false
    → b ≡ true
    → c ≡ true
    → d ≡ false
    → e ≡ false
    → (if a
        then u
        else if not b
        then v
        else if not c
        then w
        else if d
        then x
        else if e
        then y
        else z)
      ≡ z
five_tests a b c d e u v w x y z p q r s t = ground arith

pub k_sendto-send_data :
    (is_address : Bytes → Bool) (is_sent : Bool) (rounds : List Round) (sockfd : ℤ)
    (message : Bytes) (table : Table)
    → IsOpen is_address sockfd table
    → IsData message
    → k_sendto is_address is_sent rounds sockfd message table
      ≡ send_data (pos_part sockfd) message rounds table
unfolding k_sendto
k_sendto-send_data is_address is_sent rounds sockfd message table o d =
    five_tests (is_invalid sockfd) _ _ (is_control message || is_ack_frame message)
      (ltb payload_size (length message)) _ _ _ _ _ _ o.is_valid o.is_bound o.has_address d.0 d.1

-- how k_sendto ends when a round ends so, after `n` rounds without an ACK
abbrev pub ended : ℕ → ℕ → Bytes → Table → Ending → Call
ended n i message table e =
    let frame =
      0 ∷ (table i).next_seq ∷ (length message % 256) ∷ (length message / 256 % 256) ∷ message in
    elim e [
      | unsent ↦ returned minus_one table (replicate n frame)
      | broken ↦ returned minus_one table (replicate n frame ++ frame ∷ [])
      | again ↦ still_sending (replicate n frame ++ frame ∷ [])
      | acked ↦
          returned (pos (length message))
            (update table i (record (table i) { next_seq = ((table i).next_seq + 1) % 256 }))
            (replicate n frame ++ frame ∷ [])
    ]

-- what the loop makes of a round that ends so
abbrev loop_of : Bytes → Ending → Loop
loop_of frame unsent = failed []
loop_of frame broken = failed (frame ∷ [])
loop_of frame again = waiting (frame ∷ [])
loop_of frame acked = finished (frame ∷ [])

last_round :
    (seq : ℕ) (frame : Bytes) (r : Round) (rest : List Round) (e : Ending)
    → ending seq r ≡ e
    → e ≢ again
    → send_until seq frame (r ∷ rest) ≡ loop_of frame e
unfolding send_until
last_round seq frame r rest unsent h ne = ground arith
last_round seq frame r rest broken h ne = ground arith
last_round seq frame r rest again h ne = absurd (ne refl)
last_round seq frame r rest acked h ne = ground arith

call_of-ended :
    (n i : ℕ) (message : Bytes) (table : Table) (e : Ending)
    → e ≢ again
    → let frame = data_frame (table i).next_seq message in
      call_of i message table (resent n frame (loop_of frame e)) ≡ ended n i message table e
call_of-ended n i message table unsent ne =
    ap (call_of i message table) (resent-failed n _ [])
    ∙ ap (returned minus_one table)
        (append-nil (replicate n (data_frame (table i).next_seq message)))
call_of-ended n i message table broken ne = ap (call_of i message table) (resent-failed n _ _)
call_of-ended n i message table again ne = absurd (ne refl)
call_of-ended n i message table acked ne = ap (call_of i message table) (resent-finished n _ _)

-- the call ends with the first round that is not to be repeated
pub k_sendto-ending :
    (is_address : Bytes → Bool) (is_sent : Bool) (misses rest : List Round) (r : Round) (sockfd : ℤ)
    (message : Bytes) (table : Table)
    → IsOpen is_address sockfd table
    → IsData message
    → All (λ q. ending (table (pos_part sockfd)).next_seq q ≡ again) misses
    → ending (table (pos_part sockfd)).next_seq r ≢ again
    → k_sendto is_address is_sent (misses ++ r ∷ rest) sockfd message table
      ≡ ended
          (length misses)
          (pos_part sockfd)
          message
          table
          (ending (table (pos_part sockfd)).next_seq r)
k_sendto-ending is_address is_sent misses rest r sockfd message table o d h ne =
    let i = pos_part sockfd in
    let seq = (table i).next_seq in
    let frame = data_frame seq message in
    k_sendto-send_data is_address is_sent (misses ++ r ∷ rest) sockfd message table o d
    ∙ send_data-call_of i message (misses ++ r ∷ rest) table
    ∙ ap (call_of i message table) (send_until-again seq frame misses (r ∷ rest) h)
    ∙ ap (λ l. call_of i message table (resent (length misses) frame l))
        (last_round seq frame r rest (ending seq r) refl ne)
    ∙ call_of-ended (length misses) i message table (ending seq r) ne

-- the same for a round that brings the ACK
pub k_sendto-acked :
    (is_address : Bytes → Bool) (is_sent : Bool) (misses rest : List Round) (r : Round) (sockfd : ℤ)
    (message : Bytes) (table : Table)
    → IsOpen is_address sockfd table
    → IsData message
    → All (λ q. ending (table (pos_part sockfd)).next_seq q ≡ again) misses
    → ending (table (pos_part sockfd)).next_seq r ≡ acked
    → k_sendto is_address is_sent (misses ++ r ∷ rest) sockfd message table
      ≡ ended (length misses) (pos_part sockfd) message table acked
k_sendto-acked is_address is_sent misses rest r sockfd message table o d h e =
    k_sendto-ending is_address is_sent misses rest r sockfd message table o d h
      (λ f. acked_again (sym e ∙ f))
    ∙ ap (ended (length misses) (pos_part sockfd) message table) e

-- A control message is sent once and as it is.
pub k_sendto-is_control :
    (is_address : Bytes → Bool) (rounds : List Round) (sockfd : ℤ) (message : Bytes) (table : Table)
    → IsOpen is_address sockfd table
    → is_control message ≡ true
    → k_sendto is_address true rounds sockfd message table
      ≡ returned (pos (length message)) table (message ∷ [])
unfolding k_sendto
k_sendto-is_control is_address rounds sockfd message table o c =
    let a = o.is_valid in let b = o.is_bound in let d = o.has_address in ground arith

-- A data message that no round acknowledges is never done: for as long as the call runs, it has sent
-- the frame once in every round.
pub k_sendto_waits :
    (is_address : Bytes → Bool) (is_sent : Bool) (misses : List Round) (sockfd : ℤ)
    (message : Bytes) (table : Table)
    → IsOpen is_address sockfd table
    → IsData message
    → All (λ q. ending (table (pos_part sockfd)).next_seq q ≡ again) misses
    → k_sendto is_address is_sent misses sockfd message table
      ≡ still_sending
          (replicate (length misses) (data_frame (table (pos_part sockfd)).next_seq message))
unfolding send_until
k_sendto_waits is_address is_sent misses sockfd message table o d h =
    let i = pos_part sockfd in
    let seq = (table i).next_seq in
    let frame = data_frame seq message in
    k_sendto-send_data is_address is_sent misses sockfd message table o d
    ∙ send_data-call_of i message misses table
    ∙ ap (λ (rs : List Round). call_of i message table (send_until seq frame rs))
        (sym (append-nil misses))
    ∙ ap (call_of i message table)
        (send_until-again seq frame misses [] h ∙ resent-waiting (length misses) frame)
