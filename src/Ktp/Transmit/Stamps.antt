-- ===== src/Ktp/Transmit/Stamps.antt =====
-- A pass of thread S changes nothing of an entry but the times of its messages.
use cn_assignments.Base.{
  ℕ, zero, suc, ◌-◌, ◌≡◌, refl, ap, subst, ◌∙◌, Bool, true, false, not, Option, none, some, ℤ, pos,
  negsuc, ltb, ◌==◌, if◌then◌else◌, Outcome, done, blocked, fault, ◌>>=◌, find_from,
}
use cn_assignments.Ktp.Types.{SharedMemoryEntry, Datagram, to_peer, next_seq, slots}
use cn_assignments.Ktp.Arrivals.{Sent}
use cn_assignments.Ktp.Transmit.{
  transmit, prepend, timed_out, resend_slot, retransmit_from, retransmit, fresh_slot, send_from,
  send_new, send_pass, window_stop,
}

-- what holds of every result
abbrev pub Whenever {ℓ κ} : {A : Type ℓ} → (A → Type κ) → Outcome A → Type κ
Whenever P (done a) = P a
Whenever P blocked = Unit
Whenever P fault = Unit

pub Whenever-bind {ℓ κ μ ν} :
    {A : Type ℓ} {B : Type κ} (P : A → Type μ) (Q : B → Type ν) (o : Outcome A) (f : A → Outcome B)
    → Whenever P o
    → ((a : A) → P a → Whenever Q (f a))
    → Whenever Q (o >>= f)
Whenever-bind P Q (done a) f h g = g a h
Whenever-bind P Q blocked f h g = tt
Whenever-bind P Q fault f h g = tt

always {ℓ} : {A : Type ℓ} (o : Outcome A) → Whenever (λ a. Unit {0}) o
always (done a) = tt
always blocked = tt
always fault = tt

pub Whenever-if {ℓ κ} :
    {A : Type ℓ} (P : A → Type κ) (b : Bool) (x y : Outcome A)
    → Whenever P x
    → Whenever P y
    → Whenever P (if b then x else y)
Whenever-if P true x y h k = h
Whenever-if P false x y h k = k

abbrev pub OnlyStamps : SharedMemoryEntry → SharedMemoryEntry → Type 0
OnlyStamps e e' = (times : ℕ → ℤ) × (e' ≡ record e { send_time = times })

abbrev Stamped : SharedMemoryEntry → Sent → Type 0
Stamped e r = OnlyStamps e r.0

OnlyStamps-trans : (e f : SharedMemoryEntry) (r : Sent) → OnlyStamps e f → Stamped f r → Stamped e r
OnlyStamps-trans e f r (t, p) (u, q) =
    (u, q ∙ ap (λ (g : SharedMemoryEntry). record g { send_time = u }) p)

resend_slot-Whenever :
    (now : ℕ) (e : SharedMemoryEntry) (x : ℤ)
    → Whenever (λ (r : SharedMemoryEntry × Datagram). OnlyStamps e r.0) (resend_slot now e x)
unfolding resend_slot
resend_slot-Whenever now e (negsuc n) = tt
resend_slot-Whenever now e (pos s) =
    Whenever-if (λ (r : SharedMemoryEntry × Datagram). OnlyStamps e r.0) (ltb s slots) _ _ (_, refl)
      tt

retransmit_from-Whenever :
    (n k stop now : ℕ) (e : SharedMemoryEntry)
    → Whenever (Stamped e) (retransmit_from n k stop now e)
unfolding retransmit_from
retransmit_from-Whenever zero k stop now e = (e.send_time, refl)
retransmit_from-Whenever (suc n) k stop now e =
    Whenever-if (Stamped e) (k == stop) _ _ (e.send_time, refl)
      (Whenever-if (Stamped e) (not (ltb k 256)) _ _ tt (
        Whenever-bind (λ (r : SharedMemoryEntry × Datagram). OnlyStamps e r.0) (Stamped e)
          (resend_slot now e _) _ (resend_slot-Whenever now e _)
          (λ r h.
            Whenever-bind (Stamped r.0) (Stamped e) (retransmit_from n (next_seq k) stop now r.0) _
              (retransmit_from-Whenever n (next_seq k) stop now r.0)
              (λ s g. OnlyStamps-trans e r.0 s h g))))

fresh-cases :
    (n left k stop now : ℕ) (e : SharedMemoryEntry) (o : Option ℕ)
    → ((l : ℕ) (e' : SharedMemoryEntry) → Whenever (Stamped e') (send_from n l k stop now e'))
    → Whenever (Stamped e) (elim o [
      | none ↦ send_from n left k stop now e
      | some s ↦
          send_from n (left - 1) k stop now (transmit now e s)
          >>= prepend (to_peer e (e.send_buffer s))
    ])
fresh-cases n left k stop now e none h = h left e
fresh-cases n left k stop now e (some s) h =
    Whenever-bind (Stamped (transmit now e s)) (Stamped e)
      (send_from n (left - 1) k stop now (transmit now e s)) _ (h (left - 1) (transmit now e s))
      (λ r g. OnlyStamps-trans e (transmit now e s) r (_, refl) g)

send_from-Whenever :
    (n left k stop now : ℕ) (e : SharedMemoryEntry)
    → Whenever (Stamped e) (send_from n left k stop now e)
unfolding send_from
send_from-Whenever zero left k stop now e = tt
send_from-Whenever (suc n) left k stop now e =
    Whenever-if (Stamped e) (k == stop) _ _ (e.send_time, refl)
      (Whenever-if (Stamped e) (left == 0) _ _ (e.send_time, refl)
        (Whenever-if (Stamped e) (not (ltb k 256)) _ _ tt (
          Whenever-bind (λ o. Unit {0}) (Stamped e) (fresh_slot e (e.swnd.index_seq_num k)) _
            (always (fresh_slot e (e.swnd.index_seq_num k)))
            (λ o h.
              fresh-cases n left (next_seq k) stop now e o
                (λ l e'. send_from-Whenever n l (next_seq k) stop now e')))))

found-cases :
    (now : ℕ) (e : SharedMemoryEntry) (o : Option ℕ)
    → Whenever (Stamped e) (elim o [ some j ↦ retransmit now e | none ↦ send_new now e ])
unfolding retransmit send_new
found-cases now e none =
    send_from-Whenever 257 e.swnd.size e.swnd.start_sequence (window_stop e) now e
found-cases now e (some j) =
    retransmit_from-Whenever e.swnd.size e.swnd.start_sequence (window_stop e) now e

pub send_pass-Whenever :
    (now : ℕ) (e : SharedMemoryEntry) → Whenever (λ (r : Sent). OnlyStamps e r.0) (send_pass now e)
unfolding send_pass
send_pass-Whenever now e =
    Whenever-if (Stamped e) (not (e.is_free == 0)) _ _ (e.send_time, refl)
      (Whenever-if (Stamped e) (e.swnd.size == 0) _ _ (e.send_time, refl)
        (found-cases now e (find_from slots 0 (timed_out now e))))

pub send_pass-OnlyStamps :
    (now : ℕ) (e : SharedMemoryEntry) (r : Sent) → send_pass now e ≡ done r → OnlyStamps e r.0
send_pass-OnlyStamps now e r h =
    subst (Whenever (λ (s : Sent). OnlyStamps e s.0)) h (send_pass-Whenever now e)
