-- ===== src/TaskQueue/Completion.antt =====
-- Lab 5: a worker and the server until no task is left.
use cn_assignments.Base.{
  ℕ, ◌+◌, ◌≤◌, ◌<◌, ◌≡◌, ◌≢◌, ◌⊎◌, refl, ap, sym, ◌∙◌, subst, fun_ext, arith, Bool, true, false,
  inl, inr, ◌==◌, eq→==, if◌then◌else◌, ℤ, pos, minus_one, Bytes, List, [], ◌∷◌, length, All,
  Outcome, done, ◌>>=◌, update, count, count-update, count-zero, ℕ_discrete,
}
use cn_assignments.TaskQueue.{Task, SharedData, Client, has_state, assign}
use cn_assignments.TaskQueue.Take.{Taken, busy, exhausted, given, get_next_task-Taken}
use cn_assignments.TaskQueue.Turns.{completed}
use cn_assignments.TaskQueue.Worker.{stop, Pair, exchange, work}
use cn_assignments.TaskQueue.Work.{
  IsTask, IsPrinter, given_task, worked, advanced_pair, exchange-advanced_pair, exchange-stop,
}

-- how many tasks are not assigned
abbrev pub pending : SharedData → ℕ
pending d = count d.task_count (has_state 0 d)

-- The server runs, no task is assigned, and all can be computed.
pub record IsStocked (d : SharedData) : Type 0 where
  pub mutex_free : d.mutex ≡ 1
  pub runs : d.server_shutdown ≡ false
  pub settled : (j : ℕ) → j < d.task_count → ((d.tasks j).state ≡ 0) ⊎ ((d.tasks j).state ≡ 2)
  pub computable : (j : ℕ) → j < d.task_count → IsTask (d.tasks j).description

next-cases :
    (i : ℕ) (d : SharedData) (r : ℤ × SharedData)
    → IsStocked d
    → Taken i d r
    → ((r ≡ (minus_one, d)) × ((j : ℕ) → j < d.task_count → (d.tasks j).state ≢ 0))
      ⊎ ((k : ℕ) × (k < d.task_count) × ((d.tasks k).state ≡ 0) × (r ≡ (pos k, given_task i k d)))
next-cases i d _ s (busy k p q) = elim (s.settled k p) [
  | inl a ↦ absurd (omega arith)
  | inr a ↦ absurd (omega arith)
]
next-cases i d _ s (exhausted p q) = inl (refl, p)
next-cases i d _ s (given k p q first none1) = inr (k, p, q, refl)

task-worked :
    (i k j : ℕ) (d : SharedData)
    → ((worked i k d).tasks j ≡ completed (assign i (d.tasks k))) × (k ≡ j)
      ⊎ (((worked i k d).tasks j ≡ d.tasks j) × (k ≢ j))
task-worked i k j d = elim (ℕ_discrete k j) [
  | yes e ↦ inl (ground arith, e)
  | no ne ↦ inr (ground arith, ne)
]

worked-IsStocked :
    (i k : ℕ) (d : SharedData) → k < d.task_count → IsStocked d → IsStocked (worked i k d)
worked-IsStocked i k d p s = record {
  mutex_free = s.mutex_free;
  runs = s.runs;
  settled = λ j q. elim (task-worked i k j d) [
    | inl e ↦ inr (ap (λ (t : Task). t.state) e.0)
    | inr e ↦ subst (λ (t : Task). (t.state ≡ 0) ⊎ (t.state ≡ 2)) (sym e.0) (s.settled j q)
  ];
  computable = λ j q. elim (task-worked i k j d) [
    | inl e ↦ subst (λ (t : Task). IsTask t.description) (sym e.0) (s.computable k p)
    | inr e ↦ subst (λ (t : Task). IsTask t.description) (sym e.0) (s.computable j q)
  ];
}

has_state-worked :
    (i k : ℕ) (d : SharedData) → has_state 0 (worked i k d) ≡ update (has_state 0 d) k false
has_state-worked i k d = fun_ext (λ j. elim (task-worked i k j d) [
  | inl e ↦ ap (λ (t : Task). t.state == 0) e.0 ∙ ground arith
  | inr e ↦ ap (λ (t : Task). t.state == 0) e.0 ∙ ground arith
])

pending-worked :
    (i k : ℕ) (d : SharedData)
    → k < d.task_count
    → (d.tasks k).state ≡ 0
    → pending (worked i k d) + 1 ≡ pending d
pending-worked i k d p z =
    let c = count-update d.task_count (has_state 0 d) k false p in
    let e = ap (count d.task_count) (has_state-worked i k d) in
    let f = eq→== (d.tasks k).state 0 z in
    let g : ◌≡◌ {A = ℕ} (if has_state 0 d k then 1 else 0) 1 =
      ap (λ (b : Bool). if◌then◌else◌ {A = ℕ} b 1 0) f in
    omega (arith, c, e, g)

work-stopped :
    (print_quotient : ℤ → ℤ → Bytes) (i : ℕ) (times : List (ℕ × ℕ)) (p : Pair)
    → p.worker.is_running ≡ false
    → work print_quotient i times p ≡ done p
unfolding work
work-stopped print_quotient i [] p h = refl
work-stopped print_quotient i (t ∷ times) p h = ground arith

work-next :
    (print_quotient : ℤ → ℤ → Bytes) (i : ℕ) (t : ℕ × ℕ) (times : List (ℕ × ℕ)) (p q : Pair)
    → p.worker.is_running ≡ true
    → exchange print_quotient i t.0 t.1 p ≡ done q
    → work print_quotient i (t ∷ times) p ≡ work print_quotient i times q
unfolding work
work-next print_quotient i t times p q r x =
    ap
      (λ (b : Bool). elim b [
        | false ↦ done p
        | true ↦ exchange print_quotient i t.0 t.1 p >>= λ q. work print_quotient i times q
      ])
      r
    ∙ ap (λ (o : Outcome Pair). o >>= λ q. work print_quotient i times q) x

-- Both turns of an exchange come within ten seconds of the start of the connection.
abbrev pub InTime : Client → ℕ × ℕ → Type 0
InTime c t = (t.0 ≤ c.last_active_time + 10) × (t.1 ≤ c.last_active_time + 10)

-- The end of the loop of a worker that began as `p`.
abbrev Ends : (ℤ → ℤ → Bytes) → ℕ → List (ℕ × ℕ) → Pair → Type 0
Ends print_quotient i times p =
    (q : Pair) × (work print_quotient i times p ≡ done q)
    × (q.worker.is_running ≡ false)
    × (q.client.is_open ≡ false)
    × (q.worker.num_tasks ≡ p.worker.num_tasks + pending p.shared)
    × ((j : ℕ) → j < p.shared.task_count → (q.shared.tasks j).state ≡ 2)

-- While the server runs, no other worker takes tasks, and every task is unassigned or completed and
-- can be computed without overflow, a worker whose exchanges come within ten seconds of the start,
-- and which has time for more than there are unassigned tasks, completes them all: it counts each of
-- them, leaves when it is told that there is no more, its child ends, and every task is completed.
pub work-Ends :
    (print_quotient : ℤ → ℤ → Bytes) (i : ℕ) (times : List (ℕ × ℕ)) (p : Pair)
    → IsPrinter print_quotient
    → IsStocked p.shared
    → p.worker.is_running ≡ true
    → p.client.is_open ≡ true
    → All (InTime p.client) times
    → pending p.shared < length times
    → Ends print_quotient i times p
unfolding work
work-Ends print_quotient i [] p printer s r o h e = absurd (omega arith)
work-Ends print_quotient i (t ∷ times) p printer s r o h e =
    let d = p.shared in
    let g = get_next_task-Taken i d s.mutex_free in
    elim (next-cases i d g.0 s g.2) [
      | inl (same, none0) ↦
          let q : Pair = record {
            worker = stop p.worker;
            client = record p.client { is_open = false };
            shared = d;
          } in
          let x =
            exchange-stop print_quotient i t.0 t.1 p s.runs o h.0.0 h.0.1 (g.1 ∙ ap done same) in
          let y = work-stopped print_quotient i times q refl in
          let z =
            count-zero d.task_count (has_state 0 d) (λ j k. let u = none0 j k in ground arith) in
          (
            q,
            work-next print_quotient i t times p q r x ∙ y,
            refl,
            refl,
            omega (arith, z),
            λ j k. elim (s.settled j k) [ inl u ↦ absurd (none0 j k u) | inr u ↦ u ],
          )
      | inr (k, inside, zero_state, same) ↦
          let x =
            exchange-advanced_pair print_quotient i k t.0 t.1 p printer s.mutex_free s.runs h.0.0
              h.0.1 inside (s.computable k inside) (g.1 ∙ ap done same) in
          let fewer = pending-worked i k d inside zero_state in
          let (q, run, stopped, closed, total, all) =
            work-Ends print_quotient i times (advanced_pair i k p) printer
              (worked-IsStocked i k d inside s) r o h.1 (omega (arith, fewer)) in
          (
            q,
            work-next print_quotient i t times p (advanced_pair i k p) r x ∙ run,
            stopped,
            closed,
            omega (arith, total, fewer),
            all,
          )
    ]
