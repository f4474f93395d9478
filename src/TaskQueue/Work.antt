-- ===== src/TaskQueue/Work.antt =====
-- Lab 5: what the exchanges of a worker with the server do to the tasks.
use cn_assignments.Base.{
  print_int-length, ℕ, ◌+◌, ◌≤◌, ◌<◌, ◌≡◌, refl, ap, ◌∙◌, arith, true, false, Option, some, ℤ, pos,
  minus_one, is_int, Bytes, [], ◌∷◌, ◌++◌, length, length-append, Outcome, done, ◌>>=◌, codes,
  starts_with, same_text, print_int, update,
}
use cn_assignments.TaskQueue.{
  Task, SharedData, Client, bytes, Turned, turn, receive, answer, get_next_task, answer_task,
  answer_result, complete_task, mark_completed, locked_void, put_task, assign, leave,
}
use cn_assignments.TaskQueue.Take.{remutex}
use cn_assignments.TaskQueue.Turns.{completed}
use cn_assignments.TaskQueue.Worker.{
  Value, whole, quotient, perform_operation, scan_task, print_value, result_msg, Next, sends,
  compute, take_answer, Worker, stop, take_acknowledgment, arrived, Pair, go_on, exchange,
}

-- A task that the worker can compute: what it reads are two ints and an operation without overflow.
pub record IsTask (t : Bytes) : Type 0 where
  pub num1 : ℤ
  pub op : ℕ
  pub num2 : ℤ
  pub value : Value
  pub is_short : length t < 50
  pub is_read : scan_task t ≡ some (num1, op, num2)
  pub is_int1 : is_int num1 ≡ true
  pub is_int2 : is_int num2 ≡ true
  pub is_computed : perform_operation num1 op num2 ≡ done value

-- "%.2f" of a quotient of two ints has at most fourteen characters.
abbrev pub IsPrinter : (ℤ → ℤ → Bytes) → Type 0
IsPrinter print_quotient = (a b : ℤ) → length (print_quotient a b) ≤ 14

print_value-length :
    (print_quotient : ℤ → ℤ → Bytes) (v : Value)
    → IsPrinter print_quotient
    → length (print_value print_quotient v) ≤ 14
print_value-length print_quotient (whole z) h =
    omega (arith, print_int-length z, length-append (print_int z) (codes ".00"))
print_value-length print_quotient (quotient a b) h = h a b

compute-sends :
    (print_quotient : ℤ → ℤ → Bytes) (t : Bytes) (k : IsTask t)
    → compute print_quotient t ≡ done (sends (result_msg print_quotient k.value))
unfolding compute
compute-sends print_quotient t k = ground (arith, k.is_read, k.is_int1, k.is_int2, k.is_computed)

-- The server answers with a task: the worker computes it.
pub take_answer-task :
    (print_quotient : ℤ → ℤ → Bytes) (t : Bytes)
    → length t < 50
    → take_answer print_quotient (some (codes "Task: " ++ t)) ≡ compute print_quotient t
unfolding take_answer same_text starts_with
take_answer-task print_quotient t h = ground arith

-- A child that has not been open for more than ten seconds, while the server runs, answers.
turn-answer :
    (i time : ℕ) (b : Bytes) (c : Client) (d : SharedData)
    → length b < 1024
    → time ≤ c.last_active_time + 10
    → d.server_shutdown ≡ false
    → turn i time (bytes b) c d ≡ answer i b c d
unfolding turn receive
turn-answer i time b c d s h r = ground arith

answer-get_task :
    (i : ℕ) (c : Client) (d : SharedData)
    → answer i (codes "GET_TASK") c d ≡ (get_next_task i d >>= λ r. done (answer_task c r))
unfolding answer starts_with
answer-get_task i c d = refl

answer-answer_result :
    (i : ℕ) (text : Bytes) (c : Client) (d : SharedData)
    → answer i (codes "RESULT " ++ text) c d ≡ answer_result c d
unfolding answer starts_with
answer-answer_result i text c d = refl

answer-leave :
    (i : ℕ) (c : Client) (d : SharedData) → answer i (codes "exit") c d ≡ done (leave c d [])
unfolding answer starts_with
answer-leave i c d = refl

pub update-same {ℓ} : {A : Type ℓ} (f : ℕ → A) (i : ℕ) (v : A) → update f i v i ≡ v
update-same f i v = ground arith

abbrev pub given_task : ℕ → ℕ → SharedData → SharedData
given_task i k d = put_task d k (assign i (d.tasks k))

-- the shared memory after a task has gone to client `i` and its result has come back
abbrev pub worked : ℕ → ℕ → SharedData → SharedData
worked i k d = let e = given_task i k d in put_task e k (completed (e.tasks k))

answer_result-completed :
    (k : ℕ) (c : Client) (d : SharedData)
    → d.mutex ≡ 1
    → k < d.task_count
    → answer_result (record c { current_task = pos k }) d
      ≡ done (record {
        client = record c { current_task = minus_one };
        shared = put_task d k (completed (d.tasks k));
        sent = codes "Result received" ∷ [];
      })
unfolding answer_result complete_task locked_void mark_completed
answer_result-completed k c d h p = ground (arith, remutex d h)

-- What an exchange comes to by the answer that the worker gets.
abbrev pub told : (ℤ → ℤ → Bytes) → ℕ → ℕ → Worker → Turned → Option Bytes → Outcome Pair
told print_quotient i time w r buffer = take_answer print_quotient buffer >>= go_on i time w r

pub exchange-answer :
    (print_quotient : ℤ → ℤ → Bytes) (i time1 time2 : ℕ) (p : Pair) (r : ℤ × SharedData)
    → time1 ≤ p.client.last_active_time + 10
    → p.shared.server_shutdown ≡ false
    → get_next_task i p.shared ≡ done r
    → exchange print_quotient i time1 time2 p ≡ (
        arrived (answer_task p.client r)
        >>= told print_quotient i time2 p.worker (answer_task p.client r))
unfolding exchange
exchange-answer print_quotient i time1 time2 p r late running g =
    ap
      (λ (o : Outcome Turned).
        o >>= λ r. arrived r >>= λ buffer. told print_quotient i time2 p.worker r buffer)
      (turn-answer i time1 (codes "GET_TASK") p.client p.shared (omega arith) late running
        ∙ answer-get_task i p.client p.shared
        ∙ ap (λ (o : Outcome (ℤ × SharedData)). o >>= λ r. done (answer_task p.client r)) g)

-- the pair after a task is done
abbrev pub advanced_pair : ℕ → ℕ → Pair → Pair
advanced_pair i k p = record {
  worker = record p.worker { num_tasks = p.worker.num_tasks + 1 };
  client = record p.client { current_task = minus_one };
  shared = worked i k p.shared;
}

pub exchange-advanced_pair :
    (print_quotient : ℤ → ℤ → Bytes) (i k time1 time2 : ℕ) (p : Pair)
    → IsPrinter print_quotient
    → p.shared.mutex ≡ 1
    → p.shared.server_shutdown ≡ false
    → time1 ≤ p.client.last_active_time + 10
    → time2 ≤ p.client.last_active_time + 10
    → k < p.shared.task_count
    → IsTask (p.shared.tasks k).description
    → get_next_task i p.shared ≡ done (pos k, given_task i k p.shared)
    → exchange print_quotient i time1 time2 p ≡ done (advanced_pair i k p)
unfolding answer_task arrived go_on
exchange-advanced_pair print_quotient i k time1 time2 p printer m running late1 late2 inside t g =
    let e = given_task i k p.shared in
    let c = record p.client { current_task = pos k } in
    let r = answer_task p.client (pos k, e) in
    let same : (e.tasks k).description ≡ (p.shared.tasks k).description =
      ap (λ (t : Task). t.description)
        (update-same p.shared.tasks k (assign i (p.shared.tasks k))) in
    let told_task =
      ap (λ (b : Bytes). take_answer print_quotient (some (codes "Task: " ++ b))) same
      ∙ take_answer-task print_quotient (p.shared.tasks k).description t.is_short
      ∙ compute-sends print_quotient (p.shared.tasks k).description t in
    let message = result_msg print_quotient t.value in
    let short : length message < 1024 =
      omega (arith, print_value-length print_quotient t.value printer) in
    let back =
      turn-answer i time2 message c e short late2 running
      ∙ answer-answer_result i (print_value print_quotient t.value) c e
      ∙ answer_result-completed k p.client e m inside in
    exchange-answer print_quotient i time1 time2 p (pos k, e) late1 running g
    ∙ ap (λ (o : Outcome Next). o >>= go_on i time2 p.worker r) told_task
    ∙ ap
        (λ (o : Outcome Turned). o >>= λ q. arrived q >>= λ ack. done (record {
          worker = take_acknowledgment ack p.worker;
          client = q.client;
          shared = q.shared;
        }))
        back

-- With no task left the worker leaves, and the child with it.
pub exchange-stop :
    (print_quotient : ℤ → ℤ → Bytes) (i time1 time2 : ℕ) (p : Pair)
    → p.shared.server_shutdown ≡ false
    → p.client.is_open ≡ true
    → time1 ≤ p.client.last_active_time + 10
    → time2 ≤ p.client.last_active_time + 10
    → get_next_task i p.shared ≡ done (minus_one, p.shared)
    → exchange print_quotient i time1 time2 p
      ≡ done (record {
        worker = stop p.worker;
        client = record p.client { is_open = false };
        shared = p.shared;
      })
unfolding answer_task arrived go_on take_answer same_text starts_with
exchange-stop print_quotient i time1 time2 p running open_ late1 late2 g =
    let back =
      turn-answer i time2 (codes "exit") p.client p.shared (omega arith) late2 running
      ∙ answer-leave i p.client p.shared in
    exchange-answer print_quotient i time1 time2 p (minus_one, p.shared) late1 running g
    ∙ ground arith
