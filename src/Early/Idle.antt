-- ===== src/Early/Idle.antt =====
-- Lab 4: what the threads do from the start of the system on.
use cn_assignments.Base.{
  ℕ, zero, suc, ap, ◌<◌, ◌≤◌, dec_lt, minus_one, ◌+◌, ◌≡◌, refl, sym, ◌∙◌, subst, arith, Bool, true,
  false, not, Option, ◌⊎◌, inl, inr, length, ℤ, pos_part, Bytes, [], Outcome, done, blocked, fault,
  ◌>>=◌, ltb, if◌then◌else◌, update-cases,
}
use cn_assignments.Early.{
  SharedMemoryEntry, Memory, k_bind, k_sendto, store, put_entry, init_ksocket, acks_from, thread_r,
  resend_from, thread_s, collect_from, garbage_collector, is_invalid, message_size, slots,
}

-- The calls of the processes and a pass of the collector, in any order; the passes of the threads,
-- k_socket, k_recvfrom and k_close leave the memory as it is. A call of k_sendto that writes outside
-- the arrays of its entry is no step.
pub data Step (m : Memory) : Memory → Type 0 where
  bind :
      (is_address : Bytes → Bool) (bound : Bool) (sockfd : ℤ) (src_ip : Bytes) (src_port : ℕ)
      (dest_ip : Bytes) (dest_port : ℕ)
      → Step m (k_bind is_address bound sockfd src_ip src_port dest_ip dest_port m).1
  send :
      (sent sockfd : ℤ) (message : Bytes) (r : ℤ × Memory)
      → k_sendto sent sockfd message m ≡ done r
      → Step m r.1
  collect : (exists : ℕ → Bool) → Step m (garbage_collector exists m)

pub data Reach (m : Memory) : Memory → Type 0 where
  here : Reach m m
  later : {v w : Memory} → Reach m v → Step v w → Reach m w

abbrev pub AllFree : Memory → Type 0
AllFree m = (i : ℕ) → (m.shared_memory i).is_free ≡ true

AllFree-put_entry :
    (m : Memory) (i : ℕ) (entry : SharedMemoryEntry)
    → AllFree m
    → entry.is_free ≡ true
    → AllFree (put_entry m i entry)
AllFree-put_entry m i entry h e j =
    update-cases (λ k (x : SharedMemoryEntry). x.is_free ≡ true) m.shared_memory i entry j e
      (λ ne. h j)

k_bind-AllFree :
    (is_address : Bytes → Bool) (bound : Bool) (sockfd : ℤ) (src_ip : Bytes) (src_port : ℕ)
    (dest_ip : Bytes) (dest_port : ℕ) (m : Memory)
    → AllFree m
    → AllFree (k_bind is_address bound sockfd src_ip src_port dest_ip dest_port m).1
unfolding k_bind
k_bind-AllFree is_address bound sockfd src_ip src_port dest_ip dest_port m h i =
    let f = h i in ground arith

store-is_free :
    (message : Bytes) (entry e : SharedMemoryEntry)
    → store message entry ≡ done e
    → e.is_free ≡ entry.is_free
unfolding store
store-is_free message entry e h = ground arith

bind-done {ℓ κ} :
    {A : Type ℓ} {B : Type κ} (o : Outcome A) (g : A → B) (r : B)
    → (o >>= λ a. done (g a)) ≡ done r
    → (a : A) × (o ≡ done a) × (g a ≡ r)
bind-done (done a) g r h = (a, refl, ground arith)
bind-done blocked g r h = absurd (ground arith)
bind-done fault g r h = absurd (ground arith)

three_tests {ℓ} :
    {A : Type ℓ} (a b c : Bool) (x y z : A)
    → (if a then x else if b then x else if c then x else y) ≡ z
    → (x ≡ z) ⊎ (y ≡ z)
three_tests true b c x y z h = inl h
three_tests false true c x y z h = inl h
three_tests false false true x y z h = inl h
three_tests false false false x y z h = inr h

done-injective {ℓ} : {A : Type ℓ} (x y : A) → done x ≡ done y → x ≡ y
done-injective x y h = ground arith

k_sendto-AllFree :
    (sent sockfd : ℤ) (message : Bytes) (m : Memory) (r : ℤ × Memory)
    → k_sendto sent sockfd message m ≡ done r
    → AllFree m
    → AllFree r.1
unfolding k_sendto
k_sendto-AllFree sent sockfd message m r h f =
    let i = pos_part sockfd in
    elim (three_tests (is_invalid sockfd) (not (m.ksocket_table i).is_bound)
      (ltb message_size (length message)) _ _ _ h) [
        | inl e ↦ subst (λ (u : ℤ × Memory). AllFree u.1) (done-injective _ _ e) f
        | inr e ↦
            let (entry, stored, same) =
              bind-done (store message (m.shared_memory i)) (λ entry. (sent, put_entry m i entry)) r
                e in
            subst (λ (u : ℤ × Memory). AllFree u.1) same
              (AllFree-put_entry m i entry f
                (store-is_free message (m.shared_memory i) entry stored ∙ f i))
      ]

collect_from-AllFree :
    (n i : ℕ) (exists : ℕ → Bool) (m : Memory) → AllFree m → collect_from n i exists m ≡ m
unfolding collect_from
collect_from-AllFree zero i exists m h = refl
collect_from-AllFree (suc n) i exists m h =
    let f = h i in let rest = collect_from-AllFree n (i + 1) exists m h in ground arith

resend_from-AllFree : (n i : ℕ) (m : Memory) → AllFree m → resend_from n i m ≡ []
unfolding resend_from
resend_from-AllFree zero i m h = refl
resend_from-AllFree (suc n) i m h =
    let f = h i in let rest = resend_from-AllFree n (i + 1) m h in ground arith

acks_from-AllFree :
    (n i : ℕ) (arrives : ℕ → Option Bytes) (dropped : ℕ → Bool) (m : Memory)
    → AllFree m
    → acks_from n i arrives dropped m ≡ []
unfolding acks_from
acks_from-AllFree zero i arrives dropped m h = refl
acks_from-AllFree (suc n) i arrives dropped m h =
    let f = h i in let rest = acks_from-AllFree n (i + 1) arrives dropped m h in ground arith

Reach-AllFree : (m v : Memory) → AllFree m → Reach m v → AllFree v
unfolding garbage_collector
Reach-AllFree m _ h here = h
Reach-AllFree m _ h (later {v} r (bind is_address bound sockfd src_ip src_port dest_ip dest_port)) =
    k_bind-AllFree is_address bound sockfd src_ip src_port dest_ip dest_port v
      (Reach-AllFree m v h r)
Reach-AllFree m _ h (later {v} r (send sent sockfd message q e)) =
    k_sendto-AllFree sent sockfd message v q e (Reach-AllFree m v h r)
Reach-AllFree m _ h (later {v} r (collect exists)) =
    subst AllFree (sym (collect_from-AllFree 10 0 exists v (Reach-AllFree m v h r)))
      (Reach-AllFree m v h r)

bind-written :
    (o : Outcome SharedMemoryEntry) (sent : ℤ) (m : Memory) (i : ℕ)
    → ((entry : SharedMemoryEntry) × (o ≡ done entry))
    → (r : ℤ × Memory) × ((o >>= λ entry. done (sent, put_entry m i entry)) ≡ done r)
bind-written o sent m i (entry, e) =
    ((sent, put_entry m i entry), ap (λ u. u >>= λ x. done (sent, put_entry m i x)) e)

if-done {ℓ} :
    {A : Type ℓ} (b : Bool) (x : A) → b ≡ true → (e : A) × ((if b then done x else fault) ≡ done e)
if-done true x h = (x, refl)
if-done false x h = absurd (cc)

store-written :
    (message : Bytes) (entry : SharedMemoryEntry)
    → entry.swnd.size < slots
    → (e : SharedMemoryEntry) × (store message entry ≡ done e)
unfolding store
store-written message entry h = if-done (ltb entry.swnd.size slots) _ (ground arith)

if-written {ℓ} :
    {A : Type ℓ} (b : Bool) (x y : Outcome A)
    → ((r : A) × (x ≡ done r))
    → ((r : A) × (y ≡ done r))
    → (r : A) × ((if b then x else y) ≡ done r)
if-written true x y p q = p
if-written false x y p q = q

k_sendto-written :
    (sent sockfd : ℤ) (message : Bytes) (m : Memory)
    → (m.shared_memory (pos_part sockfd)).swnd.size < slots
    → (r : ℤ × Memory) × (k_sendto sent sockfd message m ≡ done r)
unfolding k_sendto
k_sendto-written sent sockfd message m h =
    let i = pos_part sockfd in
    if-written (is_invalid sockfd) _ _ ((minus_one, m), refl)
      (if-written (not (m.ksocket_table i).is_bound) _ _ ((minus_one, m), refl)
        (if-written (ltb message_size (length message)) _ _ ((minus_one, m), refl)
          (bind-written (store message (m.shared_memory i)) sent m i
            (store-written message (m.shared_memory i) h))))

-- Whatever calls of k_bind, calls of k_sendto that write within their entry, and passes of the garbage
-- collector follow init_ksocket, no entry is ever in use: threads R and S send nothing, whatever
-- arrives, and the garbage collector does nothing. A call of k_sendto writes within its entry at least
-- as long as this holds fewer than ten messages; what the program does after a call that writes
-- elsewhere is left out.
pub threads_idle :
    (v : Memory) (arrives : ℕ → Option Bytes) (dropped exists : ℕ → Bool) (sent sockfd : ℤ)
    (message : Bytes)
    → Reach init_ksocket v
    → (thread_r arrives dropped v ≡ [])
      × (thread_s v ≡ [])
      × (garbage_collector exists v ≡ v)
      × ((slots ≤ (v.shared_memory (pos_part sockfd)).swnd.size)
          ⊎ ((r : ℤ × Memory) × (k_sendto sent sockfd message v ≡ done r)))
unfolding thread_r thread_s garbage_collector init_ksocket
threads_idle v arrives dropped exists sent sockfd message r =
    let f = Reach-AllFree init_ksocket v (λ i. refl) r in
    (
      acks_from-AllFree 10 0 arrives dropped v f,
      resend_from-AllFree 10 0 v f,
      collect_from-AllFree 10 0 exists v f,
      elim (dec_lt (v.shared_memory (pos_part sockfd)).swnd.size slots) [
        | yes h ↦ inr (k_sendto-written sent sockfd message v h)
        | no h ↦ inl (omega arith)
      ],
    )
