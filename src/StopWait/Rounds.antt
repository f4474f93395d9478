-- ===== src/StopWait/Rounds.antt =====
-- Lab 4/asg4/ksocket.c: the rounds of k_sendto, told by what the system answers.
use cn_assignments.Base.{
  ℕ, subst, Bool-cases, inl, inr, ◌≡◌, ◌≢◌, refl, ap, sym, ◌∙◌, arith, Bool, true, false, ℤ,
  pos_part, Bytes, List, [], ◌∷◌, ◌++◌, length, All, get_or,
}
use cn_assignments.StopWait.{
  Table, Round, timed_out, select_failed, receive_failed, received, is_ack_for, ending, Ending,
  unsent, broken, again, acked, k_sendto,
}
use cn_assignments.StopWait.Sending.{IsData, IsOpen, ended, k_sendto-ending}

-- The ACK with number `seq`: a frame of at least four bytes, of the type of an ACK.
pub data IsAck (seq : ℕ) : Bytes → Type 0 where
  ack : (low high : ℕ) (rest : Bytes) → IsAck seq (1 ∷ seq ∷ low ∷ high ∷ rest)

is_ack_for-IsAck : (seq : ℕ) (b : Bytes) → is_ack_for seq b ≡ true → IsAck seq b
is_ack_for-IsAck seq [] h = absurd (ground arith)
is_ack_for-IsAck seq (t ∷ []) h = absurd (ground arith)
is_ack_for-IsAck seq (t ∷ s ∷ []) h = absurd (ground arith)
is_ack_for-IsAck seq (t ∷ s ∷ l ∷ []) h = absurd (ground arith)
is_ack_for-IsAck seq (t ∷ s ∷ l ∷ u ∷ rest) h =
    let type : t ≡ 1 = ground arith in
    let number : s ≡ seq = ground arith in
    subst (λ x. IsAck seq (x ∷ s ∷ l ∷ u ∷ rest)) (sym type)
      (subst (λ x. IsAck seq (1 ∷ x ∷ l ∷ u ∷ rest)) (sym number) (ack l u rest))

pub IsAck-number : {seq : ℕ} {b : Bytes} → IsAck seq b → get_or b 1 0 ≡ seq
IsAck-number (ack l u rest) = refl

IsAck-is_ack_for : (seq : ℕ) (b : Bytes) → IsAck seq b → is_ack_for seq b ≡ true
IsAck-is_ack_for seq _ (ack l u rest) = ground arith

-- A round without the ACK: the frame is sent, but no answer comes in time, it cannot be read, or it
-- is not the ACK with the number of the frame.
pub data Misses (seq : ℕ) (r : Round) : Type 0 where
  late : r.is_sent ≡ true → r.reply ≡ timed_out → Misses seq r
  unread : r.is_sent ≡ true → r.reply ≡ receive_failed → Misses seq r
  other : (b : Bytes) → r.is_sent ≡ true → r.reply ≡ received b → ¬ IsAck seq b → Misses seq r

-- A round that ends the call, and how: the frame cannot be sent, select fails, or the ACK comes.
pub data IsLast (seq : ℕ) (r : Round) : Ending → Type 0 where
  not_sent : r.is_sent ≡ false → IsLast seq r unsent
  no_select : r.is_sent ≡ true → r.reply ≡ select_failed → IsLast seq r broken
  matching :
      (b : Bytes) → r.is_sent ≡ true → r.reply ≡ received b → IsAck seq b → IsLast seq r acked

Misses-again : (seq : ℕ) (r : Round) → Misses seq r → ending seq r ≡ again
unfolding ending
Misses-again seq r (late p q) = ground arith
Misses-again seq r (unread p q) = ground arith
Misses-again seq r (other b p q n) = elim (Bool-cases (is_ack_for seq b)) [
  | inl t ↦ absurd (n (is_ack_for-IsAck seq b t))
  | inr u ↦ ground arith
]

misses-again :
    (seq : ℕ) (rs : List Round) → All (Misses seq) rs → All (λ r. ending seq r ≡ again) rs
misses-again seq [] h = tt
misses-again seq (r ∷ rs) h = (Misses-again seq r h.0, misses-again seq rs h.1)

IsLast-ending :
    (seq : ℕ) (r : Round) (e : Ending) → IsLast seq r e → (ending seq r ≡ e) × (e ≢ again)
unfolding ending
IsLast-ending seq r _ (not_sent p) = (ground arith, λ e. cc)
IsLast-ending seq r _ (no_select p q) = (ground arith, λ e. cc)
IsLast-ending seq r _ (matching b p q a) =
    let t = IsAck-is_ack_for seq b a in (ground arith, λ e. cc)

-- k_sendto on a data message and an open socket ends with the first round that does not miss, where
-- a round misses if the frame is sent and no answer comes in time, it cannot be read, or it is no ACK
-- with the number of the frame. If the last round brings an ACK with this number, the call returns
-- the length, has sent the frame once in every round, and the socket's number is the next one modulo
-- 256; if select fails in it, or the frame cannot be sent, the call returns -1 and the table is as
-- before.
pub k_sendto_ends :
    (is_address : Bytes → Bool) (is_sent : Bool) (misses rest : List Round) (r : Round) (e : Ending)
    (sockfd : ℤ) (message : Bytes) (table : Table)
    → IsOpen is_address sockfd table
    → IsData message
    → All (Misses (table (pos_part sockfd)).next_seq) misses
    → IsLast (table (pos_part sockfd)).next_seq r e
    → k_sendto is_address is_sent (misses ++ r ∷ rest) sockfd message table
      ≡ ended (length misses) (pos_part sockfd) message table e
k_sendto_ends is_address is_sent misses rest r e sockfd message table o d h l =
    let seq = (table (pos_part sockfd)).next_seq in
    let g = IsLast-ending seq r e l in
    k_sendto-ending is_address is_sent misses rest r sockfd message table o d
      (misses-again seq misses h) (subst (λ x. x ≢ again) (sym g.0) g.1)
    ∙ ap (ended (length misses) (pos_part sockfd) message table) g.0
