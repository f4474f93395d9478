-- ===== src/Chat/Rounds.antt =====
-- The end of a round.
use cn_assignments.Base.{
  ℕ, zero, suc, List, length, get_or, ◌+◌, ◌≤◌, ◌<◌, ◌≡◌, ◌≢◌, refl, ap, ◌∙◌, subst, Bool, true,
  false, none, leb_ℤ, ltb_ℤ, if◌then◌else◌, ℤ, pos, negsuc, update, update-cases, find_from,
  find_from-some, Option-cases, inl, inr, arith, ℕ_discrete,
}
use cn_assignments.Chat.{
  ChatServer, Message, Sent, result, send_all, find_max, int_min, clear_sent, announce, missing,
  store_number, receive_number,
}

-- the largest number so far, of which client `k` is the sender
pub record IsMax (n : ℕ) (numbers : ℕ → ℤ) (m : ℤ) (k : ℕ) : Type 0 where
  pub sender : k < n
  pub attained : numbers k ≡ m
  pub largest : (j : ℕ) → j < n → leb_ℤ (numbers j) m ≡ true

larger-largest :
    (j : ℕ) (numbers : ℕ → ℤ) (m x : ℤ)
    → ((i : ℕ) → i < j → leb_ℤ (numbers i) m ≡ true)
    → leb_ℤ m x ≡ true
    → leb_ℤ (numbers j) x ≡ true
    → (i : ℕ) → i < j + 1
    → leb_ℤ (numbers i) x ≡ true
larger-largest j numbers m x below up last i p = elim (ℕ_discrete j i) [
  | yes e ↦ subst (λ y. leb_ℤ (numbers y) x ≡ true) e last
  | no ne ↦ let le = below i (omega arith) in ground arith
]

one_more :
    (b : Bool) (j : ℕ) (numbers : ℕ → ℤ) (m : ℤ) (k : ℕ)
    → ltb_ℤ m (numbers j) ≡ b
    → IsMax j numbers m k
    → IsMax (j + 1) numbers (if b then numbers j else m) (if b then j else k)
one_more true j numbers m k t v = record {
  sender = omega arith;
  attained = refl;
  largest = larger-largest j numbers m (numbers j) v.largest (ground arith) (ground arith);
}
one_more false j numbers m k t v = record {
  sender = omega (arith, v.sender);
  attained = v.attained;
  largest = larger-largest j numbers m m v.largest (ground arith) (ground arith);
}

find_max-IsMax :
    (n j b : ℕ) (numbers : ℕ → ℤ) (m : ℤ) (k : ℕ)
    → IsMax j numbers m k
    → j + n ≡ b
    → IsMax b numbers (find_max n j numbers m k).0 (find_max n j numbers m k).1
unfolding find_max
find_max-IsMax zero j b numbers m k v e = subst (λ b. IsMax b numbers m k) (omega arith) v
find_max-IsMax (suc n) j b numbers m k v e =
    find_max-IsMax n (j + 1) b numbers _ _ (one_more (ltb_ℤ m (numbers j)) j numbers m k refl v)
      (omega arith)

-- no int is below the least one
least_int : (x : ℤ) → leb_ℤ int_min x ≡ true → ltb_ℤ int_min x ≡ false → x ≡ int_min
least_int (pos n) h u = absurd (ground arith)
least_int (negsuc n) h u = ap negsuc (ground arith)

first_number :
    (b : Bool) (numbers : ℕ → ℤ)
    → ltb_ℤ int_min (numbers 0) ≡ b
    → leb_ℤ int_min (numbers 0) ≡ true
    → IsMax 1 numbers (if b then numbers 0 else int_min) (if b then 0 else 0)
first_number true numbers t h = record {
  sender = omega arith;
  attained = refl;
  largest =
      λ j p. subst (λ i. leb_ℤ (numbers i) (numbers 0) ≡ true) {x = 0} (omega arith) (ground arith);
}
first_number false numbers t h = record {
  sender = omega arith;
  attained = least_int (numbers 0) h t;
  largest =
      λ j p. subst (λ i. leb_ℤ (numbers i) int_min ≡ true) {x = 0} (omega arith) (ground arith);
}

all-IsMax :
    (n : ℕ) (numbers : ℕ → ℤ)
    → 0 < n
    → leb_ℤ int_min (numbers 0) ≡ true
    → IsMax n numbers (find_max n 0 numbers int_min 0).0 (find_max n 0 numbers int_min 0).1
unfolding find_max
all-IsMax zero numbers p h = absurd (omega arith)
all-IsMax (suc n) numbers p h =
    find_max-IsMax n 1 (suc n) numbers _ _ (first_number (ltb_ℤ int_min (numbers 0)) numbers refl h)
      (omega arith)

clear_sent-above : (n j i : ℕ) (sent : ℕ → Bool) → i < j → clear_sent n j sent i ≡ sent i
unfolding clear_sent
clear_sent-above zero j i sent p = refl
clear_sent-above (suc n) j i sent p =
    clear_sent-above n (j + 1) i (update sent j false) (omega arith) ∙ ground arith

clear_sent-at : (n j i : ℕ) (sent : ℕ → Bool) → j ≤ i → i < j + n → clear_sent n j sent i ≡ false
unfolding clear_sent
clear_sent-at zero j i sent p q = absurd (omega arith)
clear_sent-at (suc n) j i sent p q = elim (ℕ_discrete j i) [
  | yes e ↦ clear_sent-above n (j + 1) i (update sent j false) (omega arith) ∙ ground arith
  | no ne ↦ clear_sent-at n (j + 1) i (update sent j false) (omega arith) (omega arith)
]

nobody_left :
    (s : ChatServer)
    → ((j : ℕ) → j < s.numclient → s.client_sent j ≡ true)
    → find_from s.numclient 0 (missing s) ≡ none
nobody_left s all = elim (Option-cases (find_from s.numclient 0 (missing s))) [
  | inl e ↦ e
  | inr (k, e) ↦
      let r = find_from-some s.numclient 0 (missing s) e in
      let set = r.is_set in let t = all k (omega (arith, r.upper)) in absurd (ground arith)
]

length-send_all : (n i : ℕ) (fds : ℕ → ℕ) (m : Message) → length (send_all n i fds m) ≡ n
unfolding send_all
length-send_all zero i fds m = refl
length-send_all (suc n) i fds m = ap suc (length-send_all n (i + 1) fds m)

send_all-at :
    (n i j : ℕ) (fds : ℕ → ℕ) (m : Message) (d : Sent)
    → j < n
    → get_or (send_all n i fds m) j d ≡ record { to = fds (i + j); message = m }
unfolding send_all
send_all-at zero i j fds m d p = absurd (omega arith)
send_all-at (suc n) i zero fds m d p = ap (λ k. record { to = fds k; message = m }) (omega arith)
send_all-at (suc n) i (suc j) fds m d p =
    send_all-at n (i + 1) j fds m d (omega arith)
    ∙ ap (λ k. record { to = fds k; message = m }) (omega arith)

-- the server with the number of client `i` in its table
abbrev pub with_number : ℕ → ℤ → ChatServer → ChatServer
with_number i number s = record s {
  client_numbers = update s.client_numbers i number;
  client_sent = update s.client_sent i true;
}

-- When the last of at least two clients sends its number, and the numbers are ints, each client in
-- turn is sent one message, the largest of all their numbers with a client that sent it, and nobody
-- else is sent anything; the round is counted, and no client is marked any more.
pub round_ends :
    (i : ℕ) (number : ℤ) (s : ChatServer)
    → 1 < s.numclient
    → s.client_sent i ≡ false
    → ((j : ℕ) → j < s.numclient → j ≢ i → s.client_sent j ≡ true)
    → leb_ℤ int_min (update s.client_numbers i number 0) ≡ true
    → (m : ℤ) × (k : ℕ) × (t : ChatServer) × (sent : List Sent) × IsMax s.numclient
        (update s.client_numbers i number)
        m
        k
      × (receive_number i number s ≡ (t, sent))
      × (length sent ≡ s.numclient)
      × ((j : ℕ) (d : Sent)
          → j < s.numclient
          → get_or sent j d
            ≡ record { to = s.clientsockfd j; message = result s.round m (s.clientsockfd k) })
      × (t.round ≡ s.round + 1)
      × ((j : ℕ) → j < s.numclient → t.client_sent j ≡ false)
unfolding receive_number store_number announce
round_ends i number s two unsent others h =
    let t = with_number i number s in
    let all = nobody_left t (λ j p.
      update-cases (λ x b. x < s.numclient → b ≡ true) s.client_sent i true j (λ q. refl)
        (λ ne q. others j q ne) p) in
    let best = find_max s.numclient 0 t.client_numbers int_min 0 in
    (
      best.0,
      best.1,
      record t { client_sent = clear_sent s.numclient 0 t.client_sent; round = s.round + 1 },
      send_all s.numclient 0 s.clientsockfd (result s.round best.0 (s.clientsockfd best.1)),
      all-IsMax s.numclient t.client_numbers (omega arith) h,
      ground arith,
      length-send_all s.numclient 0 s.clientsockfd _,
      λ j d p.
          send_all-at s.numclient 0 j s.clientsockfd (result s.round best.0 (s.clientsockfd best.1))
            d p
          ∙ ap
              (λ x. record {
                to = s.clientsockfd x;
                message = result s.round best.0 (s.clientsockfd best.1);
              })
              (omega arith),
      refl,
      λ j p. clear_sent-at s.numclient 0 j t.client_sent (omega arith) (omega arith),
    )
