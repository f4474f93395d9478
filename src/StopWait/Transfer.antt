-- ===== src/StopWait/Transfer.antt =====
-- Lab 4/asg4: a file sent by user1 and written by user2.
use cn_assignments.Base.{
  joined, joined-freads, ℕ, ◌<◌, ◌≡◌, refl, ap, sym, ◌∙◌, arith, Bool, true, false, ℤ, pos_part,
  Bytes, List, [], ◌∷◌, ◌++◌, append_assoc, append-nil, length, map, All, Outcome, done,
}
use cn_assignments.StopWait.{Table, payload_size, max_ktp_sockets}
use cn_assignments.StopWait.Users.{
  pieces, Receiver, Event, lost, dropped, ack_lost, acknowledged, Transfer, completed, transfer,
}
use cn_assignments.StopWait.Sending.{IsOpen}
use cn_assignments.StopWait.Transmissions.{after, IsReady, after-is_ended}
use cn_assignments.StopWait.Steps.{
  written_by, with_ack, all_written, IsSend, after-file, written_by-ack, advanced, IsOpen-advanced,
  is_short, transfer-step,
}

-- what a transfer has come to: all pieces sent, and the file the receiver had with `added` behind it
abbrev Ends : Outcome Transfer → Receiver → Bytes → Type 0
Ends result r added =
    (table : Table) × (q : Receiver) × (result ≡ done (completed table q))
    × (q.file ≡ r.file ++ added)
    × (q.is_ended ≡ false)

-- If user1's socket is open, user2's is in range and has an address for the ACKs, and every piece is
-- a data message, does not look like the end of the file, and is at last acknowledged, then user1
-- sends all pieces, and user2 writes each piece once and once more for every ACK of it that was lost,
-- in the order of the file.
pub transfer-Ends :
    (is_address : Bytes → Bool) (sockfd : ℤ) (j : ℕ) (partner : Table) (stale : Bytes)
    (sends : List (Bytes × List Event)) (table : Table) (r : Receiver)
    → IsOpen is_address sockfd table
    → j < max_ktp_sockets
    → is_address (partner j).dest_ip ≡ true
    → All IsSend sends
    → r.is_ended ≡ false
    → Ends
        (transfer is_address sockfd j partner stale (map with_ack sends) table r)
        r
        (all_written sends)
unfolding transfer
transfer-Ends is_address sockfd j partner stale [] table r o p a h e =
    (table, r, refl, sym (append-nil r.file), e)
transfer-Ends is_address sockfd j partner stale ((piece, events) ∷ sends) table r o p a h e =
    let seq = (table (pos_part sockfd)).next_seq in
    let end = after seq piece (events ++ acknowledged ∷ []) r in
    let c : IsReady is_address j partner piece = record {
      in_range = p;
      has_address = a;
      is_short = is_short piece h.0.0;
      is_no_end = h.0.1;
    } in
    let step =
      transfer-step is_address sockfd j partner stale piece events (map with_ack sends) table r o c
        h.0 e in
    let (table', q, run, file, open_) =
      transfer-Ends is_address sockfd j partner stale sends (advanced (pos_part sockfd) table) end
        (IsOpen-advanced is_address sockfd table o) p a h.1
        (after-is_ended seq piece (events ++ acknowledged ∷ []) r ∙ e) in
    let w = written_by piece events in
    (
      table',
      q,
      step ∙ run,
      file
          ∙ ap (λ f. f ++ all_written sends)
              (after-file seq piece (events ++ acknowledged ∷ []) r
                ∙ ap (λ v. r.file ++ v) (written_by-ack piece events))
          ∙ append_assoc r.file (w ++ piece) (all_written sends)
          ∙ ap (λ v. r.file ++ v) (append_assoc w piece (all_written sends)),
      open_,
    )

-- no transmission whose ACK was lost
abbrev pub is_silent : Event → Bool
is_silent lost = true
is_silent dropped = true
is_silent ack_lost = false
is_silent acknowledged = false

written_by-is_silent :
    (piece : Bytes) (events : List Event)
    → All (λ e. is_silent e ≡ true) events
    → written_by piece events ≡ []
written_by-is_silent piece [] h = refl
written_by-is_silent piece (lost ∷ events) h = written_by-is_silent piece events h.1
written_by-is_silent piece (dropped ∷ events) h = written_by-is_silent piece events h.1
written_by-is_silent piece (ack_lost ∷ events) h = absurd (ground arith)
written_by-is_silent piece (acknowledged ∷ events) h = absurd (ground arith)

all_written-is_silent :
    (sends : List (Bytes × List Event))
    → All (λ s. All (λ e. is_silent e ≡ true) s.1) sends
    → all_written sends ≡ joined (map (λ s. s.0) sends)
all_written-is_silent [] h = refl
all_written-is_silent ((piece, events) ∷ sends) h =
    ap (λ w. w ++ (piece ++ all_written sends)) (written_by-is_silent piece events h.0)
    ∙ ap (λ w. piece ++ w) (all_written-is_silent sends h.1)

-- Under the same conditions, if the pieces are those that user1 reads from a file, and no ACK is lost, whatever
-- else is lost or dropped, then user2's file, empty at first, is the file.
pub transfer_same :
    (is_address : Bytes → Bool) (sockfd : ℤ) (j : ℕ) (partner : Table) (stale file : Bytes)
    (sends : List (Bytes × List Event)) (table : Table) (r : Receiver)
    → IsOpen is_address sockfd table
    → j < max_ktp_sockets
    → is_address (partner j).dest_ip ≡ true
    → All IsSend sends
    → r.is_ended ≡ false
    → r.file ≡ []
    → map (λ (s : Bytes × List Event). s.0) sends ≡ pieces (length file) file
    → All (λ s. All (λ e. is_silent e ≡ true) s.1) sends
    → (table' : Table) × (q : Receiver) × (transfer is_address sockfd j partner stale
          (map with_ack sends)
          table
          r
        ≡ done (completed table' q))
      × (q.file ≡ file)
transfer_same is_address sockfd j partner stale file sends table r o p a h e empty m s =
    let (table', q, run, same, open_) =
      transfer-Ends is_address sockfd j partner stale sends table r o p a h e in
    (
      table',
      q,
      run,
      same
          ∙ ap (λ f. f ++ all_written sends) empty
          ∙ all_written-is_silent sends s
          ∙ ap joined m
          ∙ joined-freads payload_size (length file) file (omega arith) (omega arith),
    )
