-- ===== src/Early/Sends.antt =====
-- Lab 4: what the send buffer of an entry holds after some messages.
use cn_assignments.Base.{
  ℕ, zero, suc, ◌+◌, ◌%◌, ◌≤◌, ◌<◌, ◌≡◌, ◌≢◌, refl, ap, sym, ◌∙◌, subst, arith, true, false, ℤ, pos,
  negsuc, pos_part, if◌then◌else◌, Bytes, List, [], ◌∷◌, ◌++◌, append-nil, length, drop, Outcome,
  done, fault, ◌>>=◌, update, ℕ_discrete,
}
use cn_assignments.Early.{
  SharedMemoryEntry, Memory, Datagram, slots, store, resend, k_sendto, is_invalid, message_size,
  put_entry, thread_s, resend_from,
}

-- a message in a slot, before the bytes that it leaves
abbrev pub placed : Bytes → Bytes → Bytes
placed message slot = message ++ drop (length message) slot

-- `n` messages sent one after the other, each of which the system takes
abbrev pub sends : ℕ → (ℕ → Bytes) → ℤ → Memory → Outcome Memory
sends zero messages sockfd m = done m
sends (suc n) messages sockfd m = sends n messages sockfd m >>= λ v.
    k_sendto (pos (length (messages n))) sockfd (messages n) v >>= λ r. done r.1

-- The entry holds the first `n` messages, in the slots 0 to n - 1, and is otherwise as before.
pub record IsFilled (n : ℕ) (messages : ℕ → Bytes) (old entry : SharedMemoryEntry) : Type 0 where
  pub in_use : entry.is_free ≡ old.is_free
  pub same_socket : entry.udp_socket ≡ old.udp_socket
  pub filled : entry.swnd.size ≡ n
  pub numbered : (j : ℕ) → j < n → entry.swnd.seq_nums j ≡ j
  pub held : (j : ℕ) → j < n → entry.send_buffer j ≡ placed (messages j) (old.send_buffer j)
  pub others : (j : ℕ) → n ≤ j → entry.send_buffer j ≡ old.send_buffer j

update-here {ℓ} : {A : Type ℓ} (f : ℕ → A) (i j : ℕ) (v : A) → i ≡ j → update f i v j ≡ v
update-here f i j v e = ground arith

update-there {ℓ} : {A : Type ℓ} (f : ℕ → A) (i j : ℕ) (v : A) → i ≢ j → update f i v j ≡ f j
update-there f i j v ne = ground arith

store-IsFilled :
    (n : ℕ) (messages : ℕ → Bytes) (old entry : SharedMemoryEntry)
    → n < slots
    → IsFilled n messages old entry
    → (e : SharedMemoryEntry) × (store (messages n) entry ≡ done e)
      × IsFilled (suc n) messages old e
unfolding store
store-IsFilled n messages old entry p f =
    let k = entry.swnd.size in
    let e : SharedMemoryEntry = record entry {
      send_buffer = update entry.send_buffer k (placed (messages n) (entry.send_buffer k));
      swnd = record { seq_nums = update entry.swnd.seq_nums k k; size = (k + 1) % 256 };
    } in
    let same = f.filled in
    (
      e,
      ground arith,
      record {
        in_use = f.in_use;
        same_socket = f.same_socket;
        filled = omega (arith, same);
        numbered = λ j q. elim (ℕ_discrete k j) [
          | yes h ↦ update-here entry.swnd.seq_nums k j k h ∙ h
          | no ne ↦ update-there entry.swnd.seq_nums k j k ne ∙ f.numbered j (omega arith)
        ];
        held = λ j q. elim (ℕ_discrete k j) [
          | yes h ↦
              update-here entry.send_buffer k j _ h
              ∙ ap (λ i. placed (messages i) (entry.send_buffer k)) (sym same ∙ h)
              ∙ ap (λ i. placed (messages j) (entry.send_buffer i)) h
              ∙ ap (placed (messages j)) (f.others j (omega arith))
          | no ne ↦ update-there entry.send_buffer k j _ ne ∙ f.held j (omega arith)
        ];
        others = λ j q.
            update-there entry.send_buffer k j _ (λ h. omega arith) ∙ f.others j (omega arith);
      },
    )

-- Socket `sockfd` is valid and bound.
pub record IsOpen (sockfd : ℤ) (m : Memory) : Type 0 where
  pub is_valid : is_invalid sockfd ≡ false
  pub is_bound : (m.ksocket_table (pos_part sockfd)).is_bound ≡ true

k_sendto-store :
    (sent sockfd : ℤ) (message : Bytes) (m : Memory)
    → IsOpen sockfd m
    → length message ≤ message_size
    → k_sendto sent sockfd message m ≡ (
        store message (m.shared_memory (pos_part sockfd)) >>= λ entry.
        done (sent, put_entry m (pos_part sockfd) entry))
unfolding k_sendto
k_sendto-store sent sockfd message m o h = let a = o.is_valid in let b = o.is_bound in ground arith

-- A socket whose messages so far are the first `n`; the other entries are as before.
pub record Sent (n : ℕ) (messages : ℕ → Bytes) (sockfd : ℤ) (m v : Memory) : Type 0 where
  pub is_open : IsOpen sockfd v
  pub contents :
      IsFilled n messages (m.shared_memory (pos_part sockfd)) (v.shared_memory (pos_part sockfd))
  pub kept : (j : ℕ) → j ≢ pos_part sockfd → v.shared_memory j ≡ m.shared_memory j

pub sends-Sent :
    (n : ℕ) (messages : ℕ → Bytes) (sockfd : ℤ) (m : Memory)
    → IsOpen sockfd m
    → (m.shared_memory (pos_part sockfd)).swnd.size ≡ 0
    → ((j : ℕ) → length (messages j) ≤ message_size)
    → n ≤ slots
    → (v : Memory) × (sends n messages sockfd m ≡ done v) × Sent n messages sockfd m v
sends-Sent zero messages sockfd m o empty short p = (
  m,
  refl,
  record {
    is_open = o;
    kept = λ j ne. refl;
    contents = record {
      in_use = refl;
      same_socket = refl;
      filled = empty;
      numbered = λ j q. absurd (omega arith);
      held = λ j q. absurd (omega arith);
      others = λ j q. refl;
    };
  },
)
sends-Sent (suc n) messages sockfd m o empty short p =
    let i = pos_part sockfd in
    let (v, run, t) = sends-Sent n messages sockfd m o empty short (omega arith) in
    let o' = t.is_open in
    let (e, stored, g) =
      store-IsFilled n messages (m.shared_memory i) (v.shared_memory i) (omega arith) t.contents in
    let w = put_entry v i e in
    (
      w,
      ap
            (λ (u : Outcome Memory). u >>= λ v.
              k_sendto (pos (length (messages n))) sockfd (messages n) v >>= λ r. done r.1)
            run
          ∙ ap (λ (u : Outcome (ℤ × Memory)). u >>= λ r. done r.1)
              (k_sendto-store (pos (length (messages n))) sockfd (messages n) v o' (short n)
                ∙ ap
                    (λ (u : Outcome SharedMemoryEntry).
                      u >>= λ entry. done (pos (length (messages n)), put_entry v i entry))
                    stored),
      record {
        is_open = record { is_valid = o'.is_valid; is_bound = o'.is_bound };
        contents =
            subst (IsFilled (suc n) messages (m.shared_memory i))
              (sym (update-here v.shared_memory i i e refl)) g;
        kept = λ j ne. update-there v.shared_memory i j e (λ h. ne (sym h)) ∙ t.kept j ne;
      },
    )

-- `f` at the places `j`, ..., `j + n - 1`
abbrev pub listed : ℕ → ℕ → (ℕ → Datagram) → List Datagram
listed zero j f = []
listed (suc n) j f = f j ∷ listed n (j + 1) f

-- a message as thread S sends it again: the whole slot
abbrev pub slot_datagram : (ℕ → Bytes) → SharedMemoryEntry → ℕ → Datagram
slot_datagram messages old j = record {
  udp_socket = old.udp_socket;
  message = placed (messages j) (old.send_buffer j);
}

resend-listed :
    (k j n : ℕ) (messages : ℕ → Bytes) (old entry : SharedMemoryEntry)
    → IsFilled n messages old entry
    → j + k ≤ n
    → resend k j entry ≡ listed k j (slot_datagram messages old)
unfolding resend
resend-listed zero j n messages old entry f p = refl
resend-listed (suc k) j n messages old entry f p =
    ap
      (λ i.
        record { udp_socket = entry.udp_socket; message = entry.send_buffer i }
        ∷ resend k (j + 1) entry)
      (f.numbered j (omega arith))
    ∙ ap (λ u. record { udp_socket = u; message = entry.send_buffer j } ∷ resend k (j + 1) entry)
        f.same_socket
    ∙ ap (λ b. record { udp_socket = old.udp_socket; message = b } ∷ resend k (j + 1) entry)
        (f.held j (omega arith))
    ∙ ap (λ rest. slot_datagram messages old j ∷ rest)
        (resend-listed k (j + 1) n messages old entry f (omega arith))

-- the first `n` messages, all after all others, as thread S finds them
pub resend-all :
    (n : ℕ) (messages : ℕ → Bytes) (old entry : SharedMemoryEntry)
    → IsFilled n messages old entry
    → resend entry.swnd.size 0 entry ≡ listed n 0 (slot_datagram messages old)
resend-all n messages old entry f =
    ap (λ k. resend k 0 entry) f.filled ∙ resend-listed n 0 n messages old entry f (omega arith)

resend_from-none :
    (n i : ℕ) (m : Memory)
    → ((j : ℕ) → i ≤ j → j < i + n → (m.shared_memory j).is_free ≡ true)
    → resend_from n i m ≡ []
unfolding resend_from
resend_from-none zero i m h = refl
resend_from-none (suc n) i m h =
    let free = h i (omega arith) (omega arith) in
    let rest = resend_from-none n (i + 1) m (λ j p q. h j (omega arith) (omega arith)) in
    ground arith

resend_from-one :
    (n i k : ℕ) (m : Memory)
    → i ≤ k
    → k < i + n
    → (m.shared_memory k).is_free ≡ false
    → ((j : ℕ) → j ≢ k → (m.shared_memory j).is_free ≡ true)
    → resend_from n i m ≡ resend (m.shared_memory k).swnd.size 0 (m.shared_memory k)
unfolding resend_from
resend_from-one zero i k m p q used h = absurd (omega arith)
resend_from-one (suc n) i k m p q used h = elim (ℕ_discrete i k) [
  | yes e ↦
      let rest = resend_from-none n (i + 1) m (λ j u v. h j (λ w. omega arith)) in
      let used' : (m.shared_memory i).is_free ≡ false =
        subst (λ j. (m.shared_memory j).is_free ≡ false) (sym e) used in
      ap
        (λ b.
          if b
          then resend_from n (i + 1) m
          else resend (m.shared_memory i).swnd.size 0 (m.shared_memory i)
            ++ resend_from n (i + 1) m)
        used'
      ∙ ap (λ r. resend (m.shared_memory i).swnd.size 0 (m.shared_memory i) ++ r) rest
      ∙ append-nil (resend (m.shared_memory i).swnd.size 0 (m.shared_memory i))
      ∙ ap (λ j. resend (m.shared_memory j).swnd.size 0 (m.shared_memory j)) e
  | no ne ↦
      let free = h i ne in
      let rest = resend_from-one n (i + 1) k m (omega arith) (omega arith) used h in ground arith
]

in_table : (sockfd : ℤ) → is_invalid sockfd ≡ false → pos_part sockfd < 10
in_table (pos n) h = ground arith
in_table (negsuc n) h = absurd (ground arith)

-- If thread S looks after socket `sockfd` alone, which is valid and bound and has sent nothing, then
-- up to ten messages of at most 512 bytes are all accepted, and after them a pass of thread S sends
-- every one of them again in their order, each with what else its slot of 512 bytes holds.
pub thread_s_resends :
    (n : ℕ) (messages : ℕ → Bytes) (sockfd : ℤ) (m : Memory)
    → IsOpen sockfd m
    → (m.shared_memory (pos_part sockfd)).swnd.size ≡ 0
    → ((j : ℕ) → length (messages j) ≤ message_size)
    → n ≤ slots
    → (m.shared_memory (pos_part sockfd)).is_free ≡ false
    → ((j : ℕ) → j ≢ pos_part sockfd → (m.shared_memory j).is_free ≡ true)
    → (v : Memory) × (sends n messages sockfd m ≡ done v)
      × (thread_s v ≡ listed n 0 (slot_datagram messages (m.shared_memory (pos_part sockfd))))
unfolding thread_s
thread_s_resends n messages sockfd m o empty short p used free =
    let i = pos_part sockfd in
    let (v, run, t) = sends-Sent n messages sockfd m o empty short p in
    let f = t.contents in
    (
      v,
      run,
      resend_from-one 10 0 i v (omega arith) (in_table sockfd o.is_valid) (f.in_use ∙ used)
            (λ j ne. ap (λ (x : SharedMemoryEntry). x.is_free) (t.kept j ne) ∙ free j ne)
          ∙ resend-all n messages (m.shared_memory i) (v.shared_memory i) f,
    )

-- After ten messages on a valid and bound socket that had sent nothing, the next one of at most 512 bytes is
-- written outside the arrays of the entry.
pub k_sendto-fault :
    (messages : ℕ → Bytes) (sent sockfd : ℤ) (message : Bytes) (m : Memory)
    → IsOpen sockfd m
    → (m.shared_memory (pos_part sockfd)).swnd.size ≡ 0
    → ((j : ℕ) → length (messages j) ≤ message_size)
    → length message ≤ message_size
    → (v : Memory) × (sends 10 messages sockfd m ≡ done v)
      × (k_sendto sent sockfd message v ≡ fault)
unfolding store
k_sendto-fault messages sent sockfd message m o empty short fits =
    let i = pos_part sockfd in
    let (v, run, t) = sends-Sent 10 messages sockfd m o empty short (omega arith) in
    let full = t.contents.filled in
    let f : store message (v.shared_memory i) ≡ fault = ground arith in
    (
      v,
      run,
      k_sendto-store sent sockfd message v t.is_open fits
          ∙ ap (λ (u : Outcome SharedMemoryEntry). u >>= λ entry. done (sent, put_entry v i entry))
              f,
    )
