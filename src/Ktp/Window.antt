-- ===== src/Ktp/Window.antt =====
-- The sender's window of an entry: which messages are queued, where they lie, and what k_sendto
-- and the ACK branch of thread_R_function do to it.
pub mod Queue
pub mod Release
pub mod Contents
pub mod Ack
pub mod InUse
pub mod Steps
pub mod History
pub mod Oldest
mod WindowExamples
use cn_assignments.Base.{
  ℕ, ◌+◌, ◌-◌, ◌%◌, ◌<◌, ◌≤◌, ◌≡◌, refl, Bool, true, false, ℤ, pos, negsuc, minus_one, arith, count,
  Bytes, count-all, ◌⊎◌,
}
use cn_assignments.Ktp.Types.{SharedMemoryEntry, next_seq, byte_at, slots}
use cn_assignments.Ktp.Sockets.{init_entry}

-- the number that comes `k` places after `start`
abbrev pub seq_at : ℕ → ℕ → ℕ
seq_at start k = (start + 254 + k) % 255 + 1

-- A slot that holds message `seq`, still in use.
abbrev pub IsSlot : SharedMemoryEntry → ℕ → ℤ → Type 0
IsSlot e seq (negsuc _) = ⊥
IsSlot e seq (pos s) = (s < slots) × (e.sbuff_free s ≡ false) × (byte_at (e.send_buffer s) 0 ≡ seq)

-- `n` messages from number `start` on are queued, each in a slot of its own; every other slot is
-- free and every other number has no slot.
pub record IsWindow (e : SharedMemoryEntry) (start n : ℕ) : Type 0 where
  pub low : 1 ≤ start
  pub high : start ≤ 255
  pub upcoming : e.max_seq_number_yet ≡ seq_at start n
  pub used : count slots e.sbuff_free + n ≡ slots
  pub slot : (k : ℕ) → k < n → IsSlot e (seq_at start k) (e.swnd.index_seq_num (seq_at start k))
  pub distinct :
      (j k : ℕ)
      → j < n
      → k < n
      → e.swnd.index_seq_num (seq_at start j) ≡ e.swnd.index_seq_num (seq_at start k)
      → j ≡ k
  pub empty : (k : ℕ) → n ≤ k → k < 255 → e.swnd.index_seq_num (seq_at start k) ≡ minus_one

-- the window from the entry's own start
abbrev pub SenderIsValid : SharedMemoryEntry → ℕ → Type 0
SenderIsValid e n = IsWindow e e.swnd.start_sequence n

pub init_entry-SenderIsValid : (fd : ℤ) → SenderIsValid (init_entry fd) 0
unfolding init_entry
init_entry-SenderIsValid fd = record {
  low = omega arith;
  high = omega arith;
  upcoming = refl;
  used = omega (arith, count-all slots);
  slot = λ k h. absurd (omega arith);
  distinct = λ j k h. absurd (omega arith);
  empty = λ k h l. refl;
}

-- Numbers fewer than 255 places apart are told apart.
pub seq_at-injective : (s j k : ℕ) → j < 255 → k < 255 → seq_at s j ≡ seq_at s k → j ≡ k
seq_at-injective s j k hj hk e = omega arith

pub seq_at-next : (s k : ℕ) → 1 ≤ s → s ≤ 255 → seq_at (next_seq s) k ≡ seq_at s (k + 1)
seq_at-next s k l h = omega arith
