-- ===== src/StopWait/Transmissions.antt =====
-- Lab 4/asg4: what the transmissions of one frame do to user2, and what the sender sees of them.
use cn_assignments.Base.{
  IsNoEnd, ℕ, ◌≤◌, ◌<◌, ◌≡◌, refl, ap, ◌∙◌, Bool, true, false, Bytes, List, [], ◌∷◌, ◌++◌,
  append-nil, length, drop, map, Outcome, done, ◌>>=◌,
}
use cn_assignments.StopWait.{
  Table, Round, Reply, timed_out, received, payload_size, max_ktp_sockets, data_frame, ack_for,
}
use cn_assignments.StopWait.Users.{
  Receiver, Event, lost, dropped, ack_lost, acknowledged, new_reply, respond, respond_all,
}
use cn_assignments.StopWait.Receiving.{with_chunk, receive_turn-with_chunk, receive_turn-dropped}

drop-length : (xs ys : List Bytes) → drop (length xs) (xs ++ ys) ≡ ys
drop-length [] ys = refl
drop-length (x ∷ xs) ys = drop-length xs ys

-- user2 after the transmissions of a chunk
abbrev pub after : ℕ → Bytes → List Event → Receiver → Receiver
after seq chunk [] r = r
after seq chunk (lost ∷ events) r = after seq chunk events r
after seq chunk (dropped ∷ events) r = after seq chunk events r
after seq chunk (ack_lost ∷ events) r = after seq chunk events (with_chunk seq chunk r)
after seq chunk (acknowledged ∷ events) r = after seq chunk events (with_chunk seq chunk r)

abbrev pub reply_of : ℕ → Event → Reply
reply_of seq lost = timed_out
reply_of seq dropped = timed_out
reply_of seq ack_lost = timed_out
reply_of seq acknowledged = received (ack_for seq)

-- the round that an event makes for the sender
abbrev pub round_of : ℕ → Event → Round
round_of seq e = record { is_sent = true; reply = reply_of seq e }

-- What the receiver needs: its own socket, an address for the ACKs, and a chunk that fits.
pub record IsReady (is_address : Bytes → Bool) (j : ℕ) (partner : Table) (chunk : Bytes)
    : Type 0 where
  pub in_range : j < max_ktp_sockets
  pub has_address : is_address (partner j).dest_ip ≡ true
  pub is_short : length chunk ≤ payload_size
  pub is_no_end : IsNoEnd chunk

same_receiver : (r : Receiver) → (record r { sent = r.sent ++ [] }) ≡ r
same_receiver r = ap (λ (s : List Bytes). record r { sent = s }) (append-nil r.sent)

new_reply-with_chunk :
    (seq : ℕ) (chunk : Bytes) (r : Receiver)
    → new_reply r (with_chunk seq chunk r) ≡ received (ack_for seq)
new_reply-with_chunk seq chunk r =
    ap (λ (s : List Bytes). elim s [ [] ↦ timed_out | b ∷ bs ↦ received b ])
      (drop-length r.sent (ack_for seq ∷ []))

respond-after :
    (is_address : Bytes → Bool) (j seq : ℕ) (partner : Table) (chunk stale : Bytes) (e : Event)
    (r : Receiver)
    → IsReady is_address j partner chunk
    → r.is_ended ≡ false
    → respond is_address j partner stale (data_frame seq chunk) e r
      ≡ done (after seq chunk (e ∷ []) r, reply_of seq e)
unfolding respond
respond-after is_address j seq partner chunk stale lost r c h = refl
respond-after is_address j seq partner chunk stale dropped r c h =
    ap (λ (o : Outcome Receiver). o >>= λ q. done (q, timed_out))
      (receive_turn-dropped is_address j seq partner chunk stale r h ∙ ap done (same_receiver r))
respond-after is_address j seq partner chunk stale ack_lost r c h =
    ap (λ (o : Outcome Receiver). o >>= λ q. done (q, timed_out))
      (receive_turn-with_chunk is_address j seq partner chunk stale r c.in_range c.has_address
        c.is_short c.is_no_end h)
respond-after is_address j seq partner chunk stale acknowledged r c h =
    ap (λ (o : Outcome Receiver). o >>= λ q. done (q, new_reply r q))
      (receive_turn-with_chunk is_address j seq partner chunk stale r c.in_range c.has_address
        c.is_short c.is_no_end h)
    ∙ ap (λ (b : Reply). done (with_chunk seq chunk r, b)) (new_reply-with_chunk seq chunk r)

after-cons :
    (seq : ℕ) (chunk : Bytes) (e : Event) (events : List Event) (r : Receiver)
    → after seq chunk events (after seq chunk (e ∷ []) r) ≡ after seq chunk (e ∷ events) r
after-cons seq chunk lost events r = refl
after-cons seq chunk dropped events r = refl
after-cons seq chunk ack_lost events r = refl
after-cons seq chunk acknowledged events r = refl

pub after-is_ended :
    (seq : ℕ) (chunk : Bytes) (events : List Event) (r : Receiver)
    → (after seq chunk events r).is_ended ≡ r.is_ended
after-is_ended seq chunk [] r = refl
after-is_ended seq chunk (lost ∷ events) r = after-is_ended seq chunk events r
after-is_ended seq chunk (dropped ∷ events) r = after-is_ended seq chunk events r
after-is_ended seq chunk (ack_lost ∷ events) r =
    after-is_ended seq chunk events (with_chunk seq chunk r)
after-is_ended seq chunk (acknowledged ∷ events) r =
    after-is_ended seq chunk events (with_chunk seq chunk r)

abbrev with_round : Round → Receiver × List Round → Outcome (Receiver × List Round)
with_round round q = done (q.0, round ∷ q.1)

pub respond_all-after :
    (is_address : Bytes → Bool) (j seq : ℕ) (partner : Table) (chunk stale : Bytes)
    (events : List Event) (r : Receiver)
    → IsReady is_address j partner chunk
    → r.is_ended ≡ false
    → respond_all is_address j partner stale (data_frame seq chunk) events r
      ≡ done (after seq chunk events r, map (round_of seq) events)
unfolding respond_all
respond_all-after is_address j seq partner chunk stale [] r c h = refl
respond_all-after is_address j seq partner chunk stale (e ∷ events) r c h =
    let rest =
      respond_all-after is_address j seq partner chunk stale events (after seq chunk (e ∷ []) r) c
        (after-is_ended seq chunk (e ∷ []) r ∙ h) in
    ap
      (λ (o : Outcome (Receiver × Reply)). o >>= λ p.
        respond_all is_address j partner stale (data_frame seq chunk) events p.0
        >>= with_round (record { is_sent = true; reply = p.1 }))
      (respond-after is_address j seq partner chunk stale e r c h)
    ∙ ap
        (λ (o : Outcome (Receiver × List Round)).
          o >>= with_round (record { is_sent = true; reply = reply_of seq e }))
        rest
    ∙ ap (λ (q : Receiver). done (q, map (round_of seq) (e ∷ events)))
        (after-cons seq chunk e events r)
