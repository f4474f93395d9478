-- ===== src/TaskQueue/Clear.antt =====
-- clear_assigned_tasks, complete_task and all_tasks_completed.
use cn_assignments.Base.{
  ℕ, zero, suc, ◌+◌, ◌-◌, ◌≤◌, ◌<◌, ◌≡◌, refl, subst, true, false, Bool, inl, inr, ◌↔◌, done, arith,
  find_from, find_from-some, find_from-none, Option-cases, if◌then◌else◌, ℕ_discrete,
}
use cn_assignments.TaskQueue.{
  Task, SharedData, clear_from, clear_assigned_tasks, locked, locked_void, put_task, unassign,
  is_assigned_to, all_tasks_completed, not_completed,
}
use cn_assignments.TaskQueue.Take.{remutex}

clear_from-below :
    (n i client_id : ℕ) (d : SharedData) (j : ℕ)
    → j < i
    → (clear_from n i client_id d).tasks j ≡ d.tasks j
unfolding clear_from
clear_from-below zero i client_id d j h = refl
clear_from-below (suc n) i client_id d j h = ground (
  arith,
  clear_from-below n (i + 1) client_id (put_task d i (unassign (d.tasks i))) j (omega arith),
  clear_from-below n (i + 1) client_id d j (omega arith),
)

abbrev pub cleared : ℕ → Task → Task
cleared client_id t = if is_assigned_to client_id t then unassign t else t

clear_from-at :
    (n i client_id : ℕ) (d : SharedData) (j : ℕ)
    → i ≤ j
    → j < i + n
    → (clear_from n i client_id d).tasks j ≡ cleared client_id (d.tasks j)
unfolding clear_from
clear_from-at zero i client_id d j p q = absurd (omega arith)
clear_from-at (suc n) i client_id d j p q = elim (ℕ_discrete i j) [
  | yes e ↦
      let l =
        clear_from-below n (i + 1) client_id (put_task d i (unassign (d.tasks i))) i
          (omega arith) in
      let m = clear_from-below n (i + 1) client_id d i (omega arith) in
      subst (λ j. (clear_from (suc n) i client_id d).tasks j ≡ cleared client_id (d.tasks j)) e
        (ground arith)
  | no ne ↦
      let l =
        clear_from-at n (i + 1) client_id (put_task d i (unassign (d.tasks i))) j (omega arith)
          (omega arith) in
      let m = clear_from-at n (i + 1) client_id d j (omega arith) (omega arith) in ground arith
]

-- the shared memory before and after clear_assigned_tasks
pub record Clears (client_id : ℕ) (d e : SharedData) : Type 0 where
  pub inside : (j : ℕ) → j < d.task_count → e.tasks j ≡ cleared client_id (d.tasks j)
  pub same_count : e.task_count ≡ d.task_count
  pub same_mutex : e.mutex ≡ d.mutex
  pub same_flag : e.server_shutdown ≡ d.server_shutdown

clear_from-count :
    (n i client_id : ℕ) (d : SharedData) → (clear_from n i client_id d).task_count ≡ d.task_count
unfolding clear_from
clear_from-count zero i client_id d = refl
clear_from-count (suc n) i client_id d = ground (
  arith,
  clear_from-count n (i + 1) client_id (put_task d i (unassign (d.tasks i))),
  clear_from-count n (i + 1) client_id d,
)

clear_from-mutex :
    (n i client_id : ℕ) (d : SharedData) → (clear_from n i client_id d).mutex ≡ d.mutex
unfolding clear_from
clear_from-mutex zero i client_id d = refl
clear_from-mutex (suc n) i client_id d = ground (
  arith,
  clear_from-mutex n (i + 1) client_id (put_task d i (unassign (d.tasks i))),
  clear_from-mutex n (i + 1) client_id d,
)

clear_from-flag :
    (n i client_id : ℕ) (d : SharedData)
    → (clear_from n i client_id d).server_shutdown ≡ d.server_shutdown
unfolding clear_from
clear_from-flag zero i client_id d = refl
clear_from-flag (suc n) i client_id d = ground (
  arith,
  clear_from-flag n (i + 1) client_id (put_task d i (unassign (d.tasks i))),
  clear_from-flag n (i + 1) client_id d,
)

-- With the mutex free, clear_assigned_tasks unassigns every task that bears the client's number,
-- completed ones included, and changes no other task and nothing else.
pub clear_assigned_tasks_lem :
    (client_id : ℕ) (d : SharedData)
    → d.mutex ≡ 1
    → (e : SharedData) × (clear_assigned_tasks client_id d ≡ done e) × Clears client_id d e
unfolding clear_assigned_tasks locked_void
clear_assigned_tasks_lem client_id d h =
    let f = record d { mutex = d.mutex - 1 } in
    let g = clear_from d.task_count 0 client_id f in
    (
      record g { mutex = g.mutex + 1 },
      ground arith,
      record {
        inside = λ j p. clear_from-at d.task_count 0 client_id f j (omega arith) (omega arith);
        same_count = clear_from-count d.task_count 0 client_id f;
        same_mutex = omega (arith, clear_from-mutex d.task_count 0 client_id f);
        same_flag = clear_from-flag d.task_count 0 client_id f;
      },
    )

-- With the mutex free, all_tasks_completed changes nothing, and its result is true just when every
-- task is in state 2.
pub all_tasks_completed_lem :
    (d : SharedData)
    → d.mutex ≡ 1
    → (b : Bool) × (all_tasks_completed d ≡ done (b, d))
      × ((b ≡ true) ↔ ((j : ℕ) → j < d.task_count → (d.tasks j).state ≡ 2))
unfolding all_tasks_completed locked
all_tasks_completed_lem d h = elim (Option-cases (find_from d.task_count 0 (not_completed d))) [
  | inl e ↦ (
    true,
    ground (arith, remutex d h),
    (
      λ t j p.
          let f = find_from-none d.task_count 0 (not_completed d) e j (omega arith) (omega arith) in
          ground arith,
      λ all. refl,
    ),
  )
  | inr (k, e) ↦
      let r = find_from-some d.task_count 0 (not_completed d) e in
      let u = r.is_set in
      (
        false,
        ground (arith, remutex d h),
        (λ t. ground arith, λ all. let t = all k (omega (arith, r.upper)) in ground arith),
      )
]
