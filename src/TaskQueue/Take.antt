-- ===== src/TaskQueue/Take.antt =====
-- get_next_task and the search for an assigned task.
use cn_assignments.Base.{
  ℕ, ◌+◌, ◌<◌, ◌≡◌, ◌≢◌, ap, sym, subst, none, inl, inr, ℤ, pos, negsuc, minus_one, done, arith,
  ==→eq, eq→==, find_from, find_from-some, find_from-none, Option-cases,
}
use cn_assignments.TaskQueue.{
  SharedData, take_task, get_next_task, locked, has_state, put_task, assign,
}

-- taking the mutex and giving it back
pub remutex : (d : SharedData) → d.mutex ≡ 1 → record d { mutex = 0 + 1 } ≡ d
remutex d h = ap (λ n. record d { mutex = n }) (omega arith)

-- What get_next_task may come to.
pub data Taken (client_id : ℕ) (d : SharedData) : ℤ × SharedData → Type 0 where
  busy : (k : ℕ) → k < d.task_count → (d.tasks k).state ≡ 1 → Taken client_id d (negsuc 1, d)
  exhausted :
      ((j : ℕ) → j < d.task_count → (d.tasks j).state ≢ 0)
      → ((j : ℕ) → j < d.task_count → (d.tasks j).state ≢ 1)
      → Taken client_id d (minus_one, d)
  given :
      (k : ℕ)
      → k < d.task_count
      → (d.tasks k).state ≡ 0
      → ((j : ℕ) → j < k → (d.tasks j).state ≢ 0)
      → ((j : ℕ) → j < d.task_count → (d.tasks j).state ≢ 1)
      → Taken client_id d (pos k, put_task d k (assign client_id (d.tasks k)))

without :
    (s : ℕ) (d : SharedData) (n : ℕ)
    → find_from n 0 (has_state s d) ≡ none
    → (j : ℕ) → j < n
    → (d.tasks j).state ≢ s
without s d n h j p q =
    let f = find_from-none n 0 (has_state s d) h j (omega arith) (omega arith) in
    let t = eq→== (d.tasks j).state s q in cc

pub take_task-Taken : (client_id : ℕ) (d : SharedData) → Taken client_id d (take_task client_id d)
unfolding take_task
take_task-Taken client_id d = elim (Option-cases (find_from d.task_count 0 (has_state 1 d))) [
  | inr (k, e) ↦
      let r = find_from-some d.task_count 0 (has_state 1 d) e in
      let q : take_task client_id d ≡ (negsuc 1, d) = ground arith in
      subst (Taken client_id d) (sym q)
        (busy k (omega (arith, r.upper)) (==→eq (d.tasks k).state 1 r.is_set))
  | inl none1 ↦ elim (Option-cases (find_from d.task_count 0 (has_state 0 d))) [
    | inl none0 ↦
        let q : take_task client_id d ≡ (minus_one, d) = ground arith in
        subst (Taken client_id d) (sym q)
          (exhausted (without 0 d d.task_count none0) (without 1 d d.task_count none1))
    | inr (k, e) ↦
        let r = find_from-some d.task_count 0 (has_state 0 d) e in
        let q : take_task client_id d ≡ (pos k, put_task d k (assign client_id (d.tasks k))) =
          ground arith in
        subst (Taken client_id d) (sym q) (
          given k (omega (arith, r.upper)) (==→eq (d.tasks k).state 0 r.is_set)
            (λ j p h.
              let f = r.before j (omega arith) p in let t = eq→== (d.tasks j).state 0 h in cc)
            (without 1 d d.task_count none1))
  ]
]

-- With the mutex free, get_next_task gives it back, and one of three holds: some task is assigned,
-- to whichever client, and the result is -2; or no task is unassigned and none assigned, and the
-- result is -1; or none is assigned, and the first unassigned task is assigned to the client.
pub get_next_task-Taken :
    (client_id : ℕ) (d : SharedData)
    → d.mutex ≡ 1
    → (r : ℤ × SharedData) × (get_next_task client_id d ≡ done r) × Taken client_id d r
unfolding get_next_task locked take_task
get_next_task-Taken client_id d h =
    (take_task client_id d, ground (arith, remutex d h), take_task-Taken client_id d)
