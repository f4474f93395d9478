-- ===== src/TaskQueue/Turns.antt =====
-- What a turn of a child process does to the shared memory: one of five things.
use cn_assignments.Base.{
  ℕ, ◌+◌, ◌<◌, ◌≡◌, ◌≢◌, refl, false, not, ◌&&◌, inl, inr, ℤ, pos, minus_one, done, arith, ltb,
  Bool-cases, Bytes, starts_with, codes, is_negative, [], ◌∷◌,
}
use cn_assignments.TaskQueue.{
  Task, SharedData, Client, Received, bytes, disconnected, would_block, recv_failed, Turned, turn,
  receive, answer, expire, answer_result, answer_task, complete_task, mark_completed, locked_void,
  put_task, assign, unassign, leave,
}
use cn_assignments.TaskQueue.System.{IsAssigned, IsShort, Holds}
use cn_assignments.TaskQueue.Take.{remutex, Taken, busy, exhausted, given, get_next_task-Taken}
use cn_assignments.TaskQueue.Clear.{Clears, clear_assigned_tasks_lem}

abbrev pub completed : Task → Task
completed t = record t { state = 2 }

pub data Effect (i : ℕ) (c : Client) (d : SharedData) (r : Turned) : Type 0 where
  quiet : r.shared ≡ d → r.client.current_task ≡ c.current_task → Effect i c d r
  took :
      (k : ℕ)
      → k < d.task_count
      → (d.tasks k).state ≡ 0
      → ((j : ℕ) → j < k → (d.tasks j).state ≢ 0)
      → ((j : ℕ) → j < d.task_count → (d.tasks j).state ≢ 1)
      → r.shared ≡ put_task d k (assign i (d.tasks k))
      → r.client.current_task ≡ pos k
      → Effect i c d r
  finished :
      (k : ℕ)
      → IsAssigned d k i
      → r.shared ≡ put_task d k (completed (d.tasks k))
      → r.client.current_task ≡ minus_one
      → Effect i c d r
  expired :
      (k : ℕ)
      → IsAssigned d k i
      → r.shared ≡ put_task d k (unassign (d.tasks k))
      → r.client.is_open ≡ false
      → Effect i c d r
  hung_up : Clears i d r.shared → r.client.is_open ≡ false → Effect i c d r

answer_task-Effect :
    (i : ℕ) (c : Client) (d : SharedData) (r : ℤ × SharedData)
    → Taken i d r
    → Effect i c d (answer_task c r)
unfolding answer_task
answer_task-Effect i c d _ (busy k p q) = quiet refl refl
answer_task-Effect i c d _ (exhausted p q) = quiet refl refl
answer_task-Effect i c d _ (given k p q first none1) = took k p q first none1 refl refl

answer_result-Effect :
    (i : ℕ) (c : Client) (d : SharedData)
    → d.mutex ≡ 1
    → Holds i c d
    → (r : Turned) × (answer_result c d ≡ done r) × Effect i c d r
unfolding answer_result complete_task locked_void mark_completed
answer_result-Effect i c d h (inl e) =
    (record { client = c; shared = d; sent = [] }, ground arith, quiet refl refl)
answer_result-Effect i c d h (inr (k, e, a)) = (
  record {
    client = record c { current_task = minus_one };
    shared = put_task d k (completed (d.tasks k));
    sent = codes "Result received" ∷ [];
  },
  ground (arith, remutex d h, a.in_range),
  finished k a refl refl,
)

answer-Effect :
    (i : ℕ) (b : Bytes) (c : Client) (d : SharedData)
    → d.mutex ≡ 1
    → Holds i c d
    → (r : Turned) × (answer i b c d ≡ done r) × Effect i c d r
unfolding answer
answer-Effect i b c d h l = elim (Bool-cases (starts_with (codes "exit") b)) [
  | inl t ↦ (leave c d [], ground arith, quiet refl refl)
  | inr u ↦ elim (Bool-cases (starts_with (codes "GET_TASK") b)) [
    | inl t ↦
        let g = get_next_task-Taken i d h in
        (answer_task c g.0, ground (arith, g.1), answer_task-Effect i c d g.0 g.2)
    | inr v ↦ elim (Bool-cases (starts_with (codes "RESULT") b)) [
      | inl t ↦ let g = answer_result-Effect i c d h l in (g.0, ground (arith, g.1), g.2)
      | inr w ↦ (record { client = c; shared = d; sent = [] }, ground arith, quiet refl refl)
    ]
  ]
]

receive-Effect :
    (i : ℕ) (input : Received) (c : Client) (d : SharedData)
    → IsShort input
    → d.mutex ≡ 1
    → Holds i c d
    → (r : Turned) × (receive i input c d ≡ done r) × Effect i c d r
unfolding receive
receive-Effect i (bytes b) c d s h l =
    let g = answer-Effect i b c d h l in (g.0, ground (arith, g.1), g.2)
receive-Effect i disconnected c d s h l =
    let g = clear_assigned_tasks_lem i d h in
    (leave c g.0 [], ground (arith, g.1), hung_up g.2 refl)
receive-Effect i would_block c d s h l =
    (record { client = c; shared = d; sent = [] }, refl, quiet refl refl)
receive-Effect i recv_failed c d s h l = (leave c d [], refl, quiet refl refl)

expire-Effect :
    (i k : ℕ) (c : Client) (d : SharedData)
    → d.mutex ≡ 1
    → c.current_task ≡ pos k
    → IsAssigned d k i
    → (r : Turned) × (expire c d ≡ done r) × Effect i c d r
unfolding expire locked_void
expire-Effect i k c d h e a = (
  leave (record c { current_task = minus_one }) (put_task d k (unassign (d.tasks k))) [],
  ground (arith, remutex d h),
  expired k a refl refl,
)

-- With the mutex free and the current task, if any, assigned to the client, a turn on an input below
-- 1024 bytes ends without fault or wait, and does one of five things: nothing to the tasks, take the
-- first task that is unassigned while none is assigned, complete its task, give its task back and leave, or clear the
-- tasks with its number and leave.
pub turn-Effect :
    (i now : ℕ) (input : Received) (c : Client) (d : SharedData)
    → IsShort input
    → d.mutex ≡ 1
    → Holds i c d
    → (r : Turned) × (turn i now input c d ≡ done r) × Effect i c d r
unfolding turn
turn-Effect i now input c d s h l =
    elim (Bool-cases (ltb (c.last_active_time + 10) now && not (is_negative c.current_task))) [
      | inl t ↦ elim l [
        | inl e ↦ absurd (ground arith)
        | inr (k, e, a) ↦ let g = expire-Effect i k c d h e a in (g.0, ground (arith, g.1), g.2)
      ]
      | inr u ↦ elim (Bool-cases d.server_shutdown) [
        | inl t ↦ (leave c d (codes "Server shutting down" ∷ []), ground arith, quiet refl refl)
        | inr v ↦ let g = receive-Effect i input c d s h l in (g.0, ground (arith, g.1), g.2)
      ]
    ]
