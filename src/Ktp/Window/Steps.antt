-- ===== src/Ktp/Window/Steps.antt =====
-- What k_sendto, an ACK, a bind and thread S do to the sender's side of an entry, seen as a queue.
use cn_assignments.Base.{
  ℕ, zero, suc, ◌+◌, ◌-◌, ◌<◌, ◌≤◌, ◌≡◌, ◌≢◌, refl, subst, sym, ap, ◌∙◌, arith, ℤ, some, Bytes,
  List, [], ◌∷◌, ◌++◌, length, length-append, get_or, done, find_from, find_from-some,
}
use cn_assignments.Ktp.Types.{SharedMemoryEntry, ReceiverWindow, next_seq, slots}
use cn_assignments.Ktp.Sockets.{init_entry, claim, request_bind}
use cn_assignments.Ktp.Send.{frame, queue_at}
use cn_assignments.Ktp.Acks.{handle_ack}
use cn_assignments.Ktp.Transmit.Stamps.{OnlyStamps}
use cn_assignments.Ktp.Window.{seq_at, SenderIsValid, init_entry-SenderIsValid}
use cn_assignments.Ktp.Window.Queue.{queued, queued-IsWindow}
use cn_assignments.Ktp.Window.Contents.{text_at, Contents, release_until-Contents, queued-Contents}
use cn_assignments.Ktp.Window.InUse.{handle_ack-is_free}
use cn_assignments.Ktp.Window.Ack.{
  informed-IsWindow, handle_ack_fresh, handle_ack_repeated, handle_ack-SenderIsValid,
  informed-SenderIsValid,
}

-- The entry is in use, and the frames from place `a` on are queued, in order, each in the slot of its
-- number.
pub record IsQueue (e : SharedMemoryEntry) (q : List Bytes) (a : ℕ) : Type 0 where
  pub in_use : e.is_free ≢ 1
  pub acknowledged : a ≤ length q
  pub window : SenderIsValid e (length q - a)
  pub frames : Contents e e.swnd.start_sequence (length q - a) (λ k. get_or q (a + k) [])
  pub begins : e.swnd.start_sequence ≡ next_seq e.last_ack_received
  pub last : e.last_ack_received ≤ 255

get_or-before : (q r : List Bytes) (k : ℕ) → k < length q → get_or (q ++ r) k [] ≡ get_or q k []
get_or-before [] r k h = absurd (omega arith)
get_or-before (x ∷ q) r zero h = refl
get_or-before (x ∷ q) r (suc k) h = get_or-before q r k (omega arith)

get_or-last : (q : List Bytes) (x : Bytes) → get_or (q ++ x ∷ []) (length q) [] ≡ x
get_or-last [] x = refl
get_or-last (y ∷ q) x = get_or-last q x

done-injective {ℓ} : {A : Type ℓ} (x y : A) → done x ≡ done y → x ≡ y
done-injective x y h = ground arith

-- The marks, the owner and the addresses, the width of the windows and the times do not matter.
abbrev pub dressed :
    ℕ
    → ℕ
    → Bytes
    → ℕ
    → Bytes
    → ℕ
    → ℕ
    → ReceiverWindow
    → (ℕ → ℤ)
    → SharedMemoryEntry
    → SharedMemoryEntry
dressed free pid src_ip src_port dest_ip dest_port size rwnd times e = record e {
  is_free = free;
  pid = pid;
  src_ip = src_ip;
  src_port = src_port;
  dest_ip = dest_ip;
  dest_port = dest_port;
  swnd = record (e.swnd) { size = size };
  rwnd = rwnd;
  send_time = times;
}

pub dressed-IsQueue :
    (free pid : ℕ) (src_ip : Bytes) (src_port : ℕ) (dest_ip : Bytes) (dest_port size : ℕ)
    (rwnd : ReceiverWindow) (times : ℕ → ℤ) (e : SharedMemoryEntry) (q : List Bytes) (a : ℕ)
    → free ≢ 1
    → IsQueue e q a
    → IsQueue (dressed free pid src_ip src_port dest_ip dest_port size rwnd times e) q a
dressed-IsQueue free pid src_ip src_port dest_ip dest_port size rwnd times e q a ne v = record {
  in_use = ne;
  acknowledged = v.acknowledged;
  window = record {
    low = v.window.low;
    high = v.window.high;
    upcoming = v.window.upcoming;
    used = v.window.used;
    slot = v.window.slot;
    distinct = v.window.distinct;
    empty = v.window.empty;
  };
  frames = v.frames;
  begins = v.begins;
  last = v.last;
}

pub OnlyStamps-IsQueue :
    (e e' : SharedMemoryEntry) (q : List Bytes) (a : ℕ)
    → OnlyStamps e e'
    → IsQueue e q a
    → IsQueue e' q a
OnlyStamps-IsQueue e e' q a (times, same) v =
    subst (λ (u : SharedMemoryEntry). IsQueue u q a) (sym same)
      (dressed-IsQueue e.is_free e.pid e.src_ip e.src_port e.dest_ip e.dest_port e.swnd.size e.rwnd
        times e q a v.in_use v)

pub queue_at-queued :
    (e e' : SharedMemoryEntry) (i : ℕ) (message stack : Bytes)
    → e.max_seq_number_yet < 256
    → queue_at e i message stack ≡ done e'
    → queued e i message stack ≡ e'
unfolding queue_at
queue_at-queued e e' i message stack h d =
    let x : queue_at e i message stack ≡ done (queued e i message stack) = ground arith in
    done-injective _ _ (sym x ∙ d)

pub sendto-IsQueue :
    (e : SharedMemoryEntry) (q : List Bytes) (a i : ℕ) (message stack : Bytes)
    → IsQueue e q a
    → find_from slots 0 e.sbuff_free ≡ some i
    → IsQueue (queued e i message stack) (q ++ frame e.max_seq_number_yet i message stack ∷ []) a
sendto-IsQueue e q a i message stack v f =
    let x = frame e.max_seq_number_yet i message stack in
    let r = find_from-some slots 0 e.sbuff_free f in
    let w = v.window in
    let more = length-append q (x ∷ []) in
    let n = length q - a in
    let grown : suc n ≡ length (q ++ x ∷ []) - a = omega (arith, more, v.acknowledged) in
    let history = λ (k : ℕ). get_or (q ++ x ∷ []) (a + k) [] in
    let old : Contents e e.swnd.start_sequence n history = λ k p.
      v.frames k p ∙ sym (get_or-before q (x ∷ []) (a + k) (omega (arith, v.acknowledged))) in
    let new : history n ≡ frame (seq_at e.swnd.start_sequence n) i message stack =
      ap (λ k. get_or (q ++ x ∷ []) k []) (omega (arith, v.acknowledged))
      ∙ get_or-last q x
      ∙ ap (λ m. frame m i message stack) w.upcoming in
    record {
      in_use = v.in_use;
      acknowledged = omega (arith, more, v.acknowledged);
      window =
          subst (SenderIsValid (queued e i message stack)) grown
            (queued-IsWindow w i message stack (omega (arith, r.upper)) r.is_set);
      frames =
          subst (λ m. Contents (queued e i message stack) e.swnd.start_sequence m history) grown
            (queued-Contents history w i message stack (omega (arith, r.upper)) r.is_set old new);
      begins = v.begins;
      last = v.last;
    }

pub window_ack-IsQueue :
    (e e' : SharedMemoryEntry) (q : List Bytes) (a k room : ℕ)
    → IsQueue e q a
    → k < length q - a
    → room ≤ 10
    → e.last_ack_received < seq_at e.swnd.start_sequence k
    → handle_ack e (seq_at e.swnd.start_sequence k) room ≡ done e'
    → IsQueue e' q (a + suc k)
window_ack-IsQueue e e' q a k room v h r fresh d =
    let w = v.window in
    let acked = seq_at e.swnd.start_sequence k in
    let stop = next_seq acked in
    let n = length q - a in
    let rest = length q - (a + suc k) in
    let small : n ≤ 10 = omega (arith, w.used) in
    let known : acked ≤ 255 = omega arith in
    let (e1, run1, valid, starts, size, last1, receiver) =
      handle_ack-SenderIsValid k room w h r fresh in
    let (e2, run2, texts) =
      release_until-Contents 256 (suc k) rest (λ j. get_or q (a + j) [])
        (informed-IsWindow acked room w) v.frames (omega (arith, v.acknowledged))
        (omega (arith, w.low, w.high)) (omega arith) (omega arith) in
    let same1 = done-injective e1 e' (sym run1 ∙ d) in
    let same2 =
      done-injective _ e' (sym (handle_ack_fresh e acked room known r fresh ∙ run2) ∙ d) in
    let starts' : e'.swnd.start_sequence ≡ stop =
      subst (λ (u : SharedMemoryEntry). u.swnd.start_sequence ≡ stop) same1 starts in
    let last' : e'.last_ack_received ≡ acked =
      subst (λ (u : SharedMemoryEntry). u.last_ack_received ≡ acked) same1 last1 in
    record {
      in_use = λ m. v.in_use (sym (handle_ack-is_free e e' acked room d) ∙ m);
      acknowledged = omega (arith, v.acknowledged);
      window =
          subst (SenderIsValid e') (omega arith)
            (subst (λ (u : SharedMemoryEntry). SenderIsValid u (n - (k + 1))) same1 valid);
      frames = λ j p.
          ap (λ s. text_at e' (seq_at s j)) starts'
          ∙ subst
              (λ (u : SharedMemoryEntry). text_at u (seq_at stop j) ≡ get_or q (a + (j + suc k)) [])
              same2 (texts j p)
          ∙ ap (λ i. get_or q i []) (omega arith);
      begins = starts' ∙ ap next_seq (sym last');
      last = omega (arith, last', known);
    }

pub old_ack-IsQueue :
    (e e' : SharedMemoryEntry) (q : List Bytes) (a acked room : ℕ)
    → IsQueue e q a
    → 1 ≤ acked
    → acked ≤ e.last_ack_received
    → room ≤ 10
    → handle_ack e acked room ≡ done e'
    → IsQueue e' q a
old_ack-IsQueue e e' q a acked room v l h r d =
    let same =
      done-injective _ e' (sym (handle_ack_repeated e acked room l h v.last r v.begins) ∙ d) in
    subst (λ (u : SharedMemoryEntry). IsQueue u q a) same
      (record {
        in_use = v.in_use;
        acknowledged = v.acknowledged;
        window = informed-SenderIsValid e e.last_ack_received room v.window;
        frames = v.frames;
        begins = v.begins;
        last = v.last;
      })

pub claim-IsQueue : (fd : ℤ) (me : ℕ) → IsQueue (claim me (init_entry fd)) [] 0
unfolding claim init_entry
claim-IsQueue fd me = record {
  in_use = λ m. omega arith;
  acknowledged = omega arith;
  window =
      let w = init_entry-SenderIsValid fd in
      record {
        low = w.low;
        high = w.high;
        upcoming = w.upcoming;
        used = w.used;
        slot = w.slot;
        distinct = w.distinct;
        empty = w.empty;
      };
  frames = λ k p. absurd (omega arith);
  begins = refl;
  last = omega arith;
}

pub request_bind-IsQueue :
    (e : SharedMemoryEntry) (q : List Bytes) (a : ℕ) (src_ip : Bytes) (src_port : ℕ)
    (dest_ip : Bytes) (dest_port : ℕ)
    → IsQueue e q a
    → IsQueue (request_bind src_ip src_port dest_ip dest_port e) q a
unfolding request_bind
request_bind-IsQueue e q a src_ip src_port dest_ip dest_port v =
    dressed-IsQueue 2 e.pid _ src_port _ dest_port e.swnd.size e.rwnd e.send_time e q a
      (λ m. omega arith) v
