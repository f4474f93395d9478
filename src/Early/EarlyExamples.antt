-- ===== src/Early/EarlyExamples.antt =====
-- Tests of the first version of KTP, and its theorems at a concrete memory.
use cn_assignments.Base.{
  ℕ, ◌≡◌, ◌≢◌, refl, arith, Bool, true, false, some, pos, Bytes, [], ◌∷◌, replicate, done, fault,
  codes, ℤ, ◌≤◌, ◌⊎◌, ◌==◌, if◌then◌else◌,
}
use cn_assignments.Early.{
  Memory, k_bind, k_sendto, init_ksocket, thread_r, thread_s, garbage_collector, acks_from,
}
use cn_assignments.Early.Sends.{IsOpen, sends, k_sendto-fault}
use cn_assignments.Early.Idle.{here, later, bind, threads_idle}

abbrev any_address : Bytes → Bool
any_address a = true

abbrev bound : Memory
bound =
    (k_bind any_address true (pos 4) (codes "127.0.0.1") 5000 (codes "127.0.0.1") 6000
      init_ksocket).1

-- the memory with an entry in use
abbrev used : Memory
used = record {
  ksocket_table =
      λ i. record { is_bound = true; src_ip = []; src_port = 0; dest_ip = []; dest_port = 0 };
  shared_memory = λ i. record {
    is_free = if i == 4 then false else true;
    process_id = 9;
    udp_socket = 7;
    send_buffer = λ j. replicate 4 0;
    swnd = record { seq_nums = λ j. 0; size = 0 };
  };
}

used-IsOpen : IsOpen (pos 4) used
used-IsOpen = record { is_valid = refl; is_bound = refl }

abbrev hello : ℕ → Bytes
hello j = codes "hello"

others_free : (j : ℕ) → j ≢ 4 → (used.shared_memory j).is_free ≡ true
others_free j ne = ground arith

eleventh :
    (v : Memory) × (sends 10 hello (pos 4) used ≡ done v)
    × (k_sendto (pos 5) (pos 4) (codes "hello") v ≡ fault)
eleventh =
    k_sendto-fault hello (pos 5) (pos 4) (codes "hello") used used-IsOpen refl (λ j. omega arith)
      (omega arith)

-- thread R on an entry in use
acknowledged :
    thread_r (λ i. some (codes "A")) (λ i. false) used
    ≡ record { udp_socket = 7; message = codes "ACKA" } ∷ []
unfolding thread_r acks_from
acknowledged = refl

threads_idle_example :
    (thread_r (λ i. some (codes "A")) (λ i. false) bound ≡ [])
    × (thread_s bound ≡ [])
    × (garbage_collector (λ p. false) bound ≡ bound)
    × ((10 ≤ (bound.shared_memory 4).swnd.size)
        ⊎ ((r : ℤ × Memory) × (k_sendto (pos 5) (pos 4) (codes "hello") bound ≡ done r)))
threads_idle_example =
    threads_idle bound (λ i. some (codes "A")) (λ i. false) (λ p. false) (pos 5) (pos 4)
      (codes "hello")
      (later here (bind any_address true (pos 4) (codes "127.0.0.1") 5000 (codes "127.0.0.1") 6000))
