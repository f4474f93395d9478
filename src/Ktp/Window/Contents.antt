-- ===== src/Ktp/Window/Contents.antt =====
-- What the slots of the sender's window hold, through k_sendto and the ACK branch.
use cn_assignments.Base.{
  ℕ, zero, suc, ◌+◌, ◌<◌, ◌≤◌, ◌≡◌, ◌≢◌, refl, subst, sym, ap, ◌∙◌, true, pos, pos_part, arith,
  Bytes, done, update, dec_lt,
}
use cn_assignments.Ktp.Types.{SharedMemoryEntry, next_seq, slots, zero_buffer}
use cn_assignments.Ktp.Acks.{release_seq, release_until}
use cn_assignments.Ktp.Window.{seq_at, IsWindow}
use cn_assignments.Ktp.Window.Release.{released, slot_of, index-rest, released-IsWindow, restart}
use cn_assignments.Ktp.Window.Queue.{queued, window-lt, index-other, index-new}
use cn_assignments.Ktp.Send.{frame}

-- the text in the slot of a number
abbrev pub text_at : SharedMemoryEntry → ℕ → Bytes
text_at e seq = e.send_buffer (pos_part (e.swnd.index_seq_num seq))

-- The slots of the `n` messages from number `s` on hold `f 0`, `f 1` and so on.
abbrev pub Contents : SharedMemoryEntry → ℕ → ℕ → (ℕ → Bytes) → Type 0
Contents e s n f = (k : ℕ) → k < n → text_at e (seq_at s k) ≡ f k

update-there {ℓ} : {A : Type ℓ} (f : ℕ → A) (i j : ℕ) (v : A) → i ≢ j → update f i v j ≡ f j
update-there f i j v ne = ground arith

update-here {ℓ} : {A : Type ℓ} (f : ℕ → A) (i : ℕ) (v : A) → update f i v i ≡ v
update-here f i v = ground arith

release_seq-Contents :
    {e : SharedMemoryEntry} {s n : ℕ} (f : ℕ → Bytes)
    → IsWindow e s (suc n)
    → Contents e s (suc n) f
    → (e' : SharedMemoryEntry) × (release_seq e s ≡ done e')
      × IsWindow e' (next_seq s) n
      × Contents e' (next_seq s) n (λ k. f (k + 1))
unfolding release_seq
release_seq-Contents {e} {s} {n} f w c =
    let first : seq_at s 0 ≡ s = omega (arith, w.low, w.high) in
    let (t, at, h, busy) = slot_of e s _ (rw first at (w.slot 0 (omega arith))) in
    (
      released e s t,
      ground (arith, w.high),
      released-IsWindow w t at h busy,
      λ k p.
          let small : suc n ≤ slots = omega (arith, w.used) in
          let there = index-rest w t at h busy k (omega arith) in
          let (u, lies, v, in_use) =
            slot_of e (seq_at s (k + 1)) _ (w.slot (k + 1) (omega arith)) in
          let apart : t ≢ u = λ q. omega (
            arith,
            w.distinct 0 (k + 1) (omega arith) (omega arith) (rw first (at ∙ ap pos q ∙ sym lies)),
          ) in
          ap (λ x. (released e s t).send_buffer (pos_part x)) (there ∙ lies)
          ∙ update-there e.send_buffer t u zero_buffer apart
          ∙ ap (λ x. e.send_buffer (pos_part x)) (sym lies)
          ∙ c (k + 1) (omega arith),
    )

-- The loop of the ACK branch keeps the texts of the messages that it leaves.
pub release_until-Contents :
    (fuel m n : ℕ) {e : SharedMemoryEntry} {s stop total : ℕ} (f : ℕ → Bytes)
    → IsWindow e s total
    → Contents e s total f
    → total ≡ m + n
    → stop ≡ seq_at s m
    → m < fuel
    → m < 255
    → (e' : SharedMemoryEntry) × (release_until fuel s stop e ≡ done (restart e' stop))
      × Contents e' stop n (λ k. f (k + m))
unfolding release_until
release_until-Contents zero m n f w x c q h l = absurd (omega arith)
release_until-Contents (suc fuel) zero n {e} {s} {stop} {total} f w x c q h l =
    let here : s ≡ stop = omega (arith, w.low, w.high) in
    (
      e,
      ground arith,
      λ k p. ap (λ z. text_at e (seq_at z k)) (sym here) ∙ x k (omega arith) ∙ ap f (omega arith),
    )
release_until-Contents (suc fuel) (suc m) n {e} {s} {stop} {total} f w x c q h l =
    let more : total ≡ suc (m + n) = c ∙ omega arith in
    let (e1, step, w1, x1) =
      release_seq-Contents {n = m + n} f (subst (IsWindow e s) more w)
        (subst (λ z. Contents e s z f) more x) in
    let (e', loop, x') =
      release_until-Contents fuel m n (λ k. f (k + 1)) w1 x1 refl (q ∙ omega (arith, w.low, w.high))
        (omega arith) (omega arith) in
    let apart : s ≢ stop = omega (arith, w.low, w.high) in
    (e', ground arith, λ k p. x' k p ∙ ap f (omega arith))

-- k_sendto puts the frame of its message behind the others.
pub queued-Contents :
    {e : SharedMemoryEntry} {s n : ℕ} (f : ℕ → Bytes) (w : IsWindow e s n) (i : ℕ)
    (message stack : Bytes)
    → i < slots
    → e.sbuff_free i ≡ true
    → Contents e s n f
    → f n ≡ frame (seq_at s n) i message stack
    → Contents (queued e i message stack) s (suc n) f
queued-Contents {e} {s} {n} f w i message stack h free c new k p = elim (dec_lt k n) [
  | yes q ↦
      let small = window-lt w in
      let there = index-other w i message stack h free k (omega arith) (omega arith) in
      let (u, lies, v, in_use) = slot_of e (seq_at s k) _ (w.slot k q) in
      let apart : i ≢ u =
        λ z. let y : e.sbuff_free i ≡ e.sbuff_free u = ap e.sbuff_free z in ground arith in
      ap (λ x. (queued e i message stack).send_buffer (pos_part x)) (there ∙ lies)
      ∙ update-there e.send_buffer i u _ apart
      ∙ ap (λ x. e.send_buffer (pos_part x)) (sym lies)
      ∙ c k q
  | no q ↦
      let last : n ≡ k = omega arith in
      subst (λ j. text_at (queued e i message stack) (seq_at s j) ≡ f j) last
        (ap (λ x. (queued e i message stack).send_buffer (pos_part x))
            (index-new w i message stack h free)
          ∙ update-here e.send_buffer i _
          ∙ ap (λ m. frame m i message stack) w.upcoming
          ∙ sym new)
]
