-- ===== src/TaskQueue/Unreadable.antt =====
-- Lab 5: a task that the worker cannot read.
use cn_assignments.Base.{
  ℕ, ◌+◌, ◌≤◌, ◌<◌, ◌≡◌, refl, ap, ◌∙◌, arith, false, none, some, ℤ, pos, negsuc, Bytes, ◌++◌,
  length, Outcome, done, ◌>>=◌, codes, starts_with, same_text,
}
use cn_assignments.TaskQueue.{Task, SharedData, get_next_task, answer_task, assign}
use cn_assignments.TaskQueue.Take.{Taken, busy, exhausted, given, get_next_task-Taken}
use cn_assignments.TaskQueue.Worker.{
  scan_task, Next, asks_again, compute, take_answer, arrived, go_on, Pair, exchange,
}
use cn_assignments.TaskQueue.Work.{given_task, update-same, exchange-answer, take_answer-task}

-- with a task assigned nobody gets one
Taken-busy :
    (i k : ℕ) (d : SharedData) (r : ℤ × SharedData)
    → k < d.task_count
    → (d.tasks k).state ≡ 1
    → Taken i d r
    → r ≡ (negsuc 1, d)
Taken-busy i k d _ p h (busy j q s) = refl
Taken-busy i k d _ p h (exhausted a b) = absurd (b k p h)
Taken-busy i k d _ p h (given j q s first none1) = absurd (none1 k p h)

exchange-busy :
    (print_quotient : ℤ → ℤ → Bytes) (i k time1 time2 : ℕ) (p : Pair)
    → p.shared.mutex ≡ 1
    → p.shared.server_shutdown ≡ false
    → time1 ≤ p.client.last_active_time + 10
    → k < p.shared.task_count
    → (p.shared.tasks k).state ≡ 1
    → exchange print_quotient i time1 time2 p ≡ done p
unfolding answer_task arrived go_on take_answer same_text starts_with
exchange-busy print_quotient i k time1 time2 p m running late inside h =
    let g = get_next_task-Taken i p.shared m in
    exchange-answer print_quotient i time1 time2 p (negsuc 1, p.shared) late running
      (g.1 ∙ ap done (Taken-busy i k p.shared g.0 inside h g.2))

-- the pair after a task has gone to client `i`, which has not computed it
abbrev holding : ℕ → ℕ → Pair → Pair
holding i k p = record {
  worker = p.worker;
  client = record p.client { current_task = pos k };
  shared = given_task i k p.shared;
}

compute-unreadable :
    (print_quotient : ℤ → ℤ → Bytes) (t : Bytes)
    → scan_task t ≡ none
    → compute print_quotient t ≡ done asks_again
unfolding compute
compute-unreadable print_quotient t h = ground (arith, h)

-- While the server runs, if the next task is not two numbers with an operation between them, the
-- exchange leaves it assigned with the worker running, and a later exchange in the first ten seconds changes
-- nothing.
pub unreadable_stays :
    (print_quotient : ℤ → ℤ → Bytes) (i k time1 time2 time3 time4 : ℕ) (p : Pair)
    → p.shared.mutex ≡ 1
    → p.shared.server_shutdown ≡ false
    → time1 ≤ p.client.last_active_time + 10
    → time3 ≤ p.client.last_active_time + 10
    → k < p.shared.task_count
    → length (p.shared.tasks k).description < 50
    → scan_task (p.shared.tasks k).description ≡ none
    → get_next_task i p.shared ≡ done (pos k, given_task i k p.shared)
    → (q : Pair) × (exchange print_quotient i time1 time2 p ≡ done q)
      × (q.worker ≡ p.worker)
      × ((q.shared.tasks k).state ≡ 1)
      × (exchange print_quotient i time3 time4 q ≡ done q)
unfolding answer_task arrived go_on
unreadable_stays print_quotient i k time1 time2 time3 time4 p m running late later inside short
      unread g =
    let e = given_task i k p.shared in
    let same = update-same p.shared.tasks k (assign i (p.shared.tasks k)) in
    let r = answer_task p.client (pos k, e) in
    let assigned = ap (λ (t : Task). t.state) same in
    (
      holding i k p,
      exchange-answer print_quotient i time1 time2 p (pos k, e) late running g
          ∙ ap (λ (o : Outcome Next). o >>= go_on i time2 p.worker r)
              (ap
                  (λ (t : Task).
                    take_answer print_quotient (some (codes "Task: " ++ t.description)))
                  same
                ∙ take_answer-task print_quotient (p.shared.tasks k).description short
                ∙ compute-unreadable print_quotient (p.shared.tasks k).description unread),
      refl,
      assigned,
      exchange-busy print_quotient i k time3 time4 (holding i k p) m running later inside assigned,
    )
