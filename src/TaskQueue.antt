-- ===== src/TaskQueue.antt =====
-- The task queue of Lab 5/task_queue_server.c: its shared memory, the operations on it under the
-- mutex, and a turn of the loop of a child process.
pub mod Load
pub mod System
pub mod Take
pub mod Clear
pub mod Turns
pub mod Invariant
pub mod Exclusion
pub mod Abandoned
pub mod Progress
pub mod Worker
pub mod Work
pub mod Completion
pub mod Unreadable
mod WorkExamples
mod TaskExamples
use cn_assignments.Base.{
  ℕ, zero, suc, ◌+◌, ◌-◌, Bool, true, false, not, ◌&&◌, ◌||◌, Option, none, some, ℤ, pos, negsuc,
  minus_one, pos_part, is_negative, ltb, leb, ◌==◌, if◌then◌else◌, Bytes, List, [], ◌∷◌, ◌++◌,
  length, Outcome, done, blocked, fault, ◌>>=◌, update, find_from, codes, starts_with,
}

abbrev pub max_tasks : ℕ
max_tasks = 100

abbrev pub max_task_len : ℕ
max_task_len = 50

-- A description is the text before the NUL of its array. The states: 0 not assigned, 1 assigned,
-- 2 completed.
pub record Task : Type 0 where
  pub description : Bytes
  pub state : ℕ
  pub assigned_to_client : ℤ

-- `mutex` is the value of the semaphore.
pub record SharedData : Type 0 where
  pub tasks : ℕ → Task
  pub task_count : ℕ
  pub next_task_index : ℕ
  pub mutex : ℕ
  pub server_shutdown : Bool

-- `sem_init` with 1, and the fields set to 0
unfoldable pub init_shared_memory : SharedData
init_shared_memory = record {
  tasks = λ i. record { description = []; state = 0; assigned_to_client = pos 0 };
  task_count = 0;
  next_task_index = 0;
  mutex = 1;
  server_shutdown = false;
}

-- an operation between `sem_wait` and `sem_post`
unfoldable pub locked {ℓ} :
    {A : Type ℓ} → (SharedData → A × SharedData) → SharedData → Outcome (A × SharedData)
locked body d =
    if d.mutex == 0
    then blocked
    else let r = body (record d { mutex = d.mutex - 1 }) in
      done (r.0, record (r.1) { mutex = r.1.mutex + 1 })

-- the same for an operation without a result
unfoldable pub locked_void : (SharedData → SharedData) → SharedData → Outcome SharedData
locked_void body d =
    if d.mutex == 0
    then blocked
    else let e = body (record d { mutex = d.mutex - 1 }) in done (record e { mutex = e.mutex + 1 })

abbrev pub put_task : SharedData → ℕ → Task → SharedData
put_task d i t = record d { tasks = update d.tasks i t }

abbrev pub has_state : ℕ → SharedData → ℕ → Bool
has_state s d i = (d.tasks i).state == s

abbrev pub assign : ℕ → Task → Task
assign client_id t = record t { state = 1; assigned_to_client = pos client_id }

abbrev pub unassign : Task → Task
unassign t = record t { state = 0; assigned_to_client = minus_one }

-- `get_next_task` with the mutex held: -2 if a task is assigned, -1 if none is left
unfoldable pub take_task : ℕ → SharedData → ℤ × SharedData
take_task client_id d = elim (find_from d.task_count 0 (has_state 1 d)) [
  | some i ↦ (negsuc 1, d)
  | none ↦ elim (find_from d.task_count 0 (has_state 0 d)) [
    | some i ↦ (pos i, put_task d i (assign client_id (d.tasks i)))
    | none ↦ (minus_one, d)
  ]
]

unfoldable pub get_next_task : ℕ → SharedData → Outcome (ℤ × SharedData)
get_next_task client_id d = locked (take_task client_id) d

unfoldable pub mark_completed : ℤ → SharedData → SharedData
mark_completed task_index d =
    let i = pos_part task_index in
    if not (is_negative task_index) && ltb i d.task_count
    then put_task d i (record (d.tasks i) { state = 2 })
    else d

unfoldable pub complete_task : ℤ → SharedData → Outcome SharedData
complete_task task_index d = locked_void (mark_completed task_index) d

-- `assigned_to_client == client_id`
abbrev pub is_assigned_to : ℕ → Task → Bool
is_assigned_to client_id t = elim t.assigned_to_client [ pos n ↦ n == client_id | negsuc n ↦ false ]

-- the loop of `clear_assigned_tasks`, from task `i` with `n` left
unfoldable pub clear_from : ℕ → ℕ → ℕ → SharedData → SharedData
clear_from zero i client_id d = d
clear_from (suc n) i client_id d =
    clear_from n (i + 1) client_id
      (if is_assigned_to client_id (d.tasks i) then put_task d i (unassign (d.tasks i)) else d)

unfoldable pub clear_assigned_tasks : ℕ → SharedData → Outcome SharedData
clear_assigned_tasks client_id d = locked_void (λ e. clear_from e.task_count 0 client_id e) d

abbrev pub not_completed : SharedData → ℕ → Bool
not_completed d i = not ((d.tasks i).state == 2)

unfoldable pub all_tasks_completed : SharedData → Outcome (Bool × SharedData)
all_tasks_completed d =
    locked
      (λ e. (elim (find_from e.task_count 0 (not_completed e)) [ none ↦ true | some i ↦ false ], e))
      d

-- the variables of a child process; it is open until it leaves the loop
pub record Client : Type 0 where
  pub current_task : ℤ
  pub last_active_time : ℕ
  pub is_open : Bool

-- what `recv` does: bytes, an end of the connection, EAGAIN, or another error
pub data Received : Type 0 where
  bytes : Bytes → Received
  disconnected : Received
  would_block : Received
  recv_failed : Received

-- what a turn of the loop comes to: the variables, the shared memory, and what it sends
pub record Turned : Type 0 where
  pub client : Client
  pub shared : SharedData
  pub sent : List Bytes

abbrev pub leave : Client → SharedData → List Bytes → Turned
leave c d sent = record { client = record c { is_open = false }; shared = d; sent = sent }

-- the answer to GET_TASK
unfoldable pub answer_task : Client → ℤ × SharedData → Turned
answer_task c (pos i, d) = record {
  client = record c { current_task = pos i };
  shared = d;
  sent = (codes "Task: " ++ (d.tasks i).description) ∷ [];
}
answer_task c (negsuc (suc zero), d) = record {
  client = c;
  shared = d;
  sent = codes "Error: A client already have an assigned task. Complete it first." ∷ [];
}
answer_task c (negsuc n, d) = record {
  client = c;
  shared = d;
  sent = codes "No tasks available" ∷ [];
}

-- the answer to RESULT; the number in it is only printed
unfoldable pub answer_result : Client → SharedData → Outcome Turned
answer_result c d =
    if is_negative c.current_task
    then done (record { client = c; shared = d; sent = [] })
    else complete_task c.current_task d >>= λ e. done (record {
      client = record c { current_task = minus_one };
      shared = e;
      sent = codes "Result received" ∷ [];
    })

unfoldable pub answer : ℕ → Bytes → Client → SharedData → Outcome Turned
answer client_id buffer c d =
    if starts_with (codes "exit") buffer
    then done (leave c d [])
    else if starts_with (codes "GET_TASK") buffer
    then (get_next_task client_id d >>= λ r. done (answer_task c r))
    else if starts_with (codes "RESULT") buffer
    then answer_result c d
    else done (record { client = c; shared = d; sent = [] })

-- The loop body after the two checks. The NUL that it writes behind 1024 bytes is outside the
-- buffer.
unfoldable pub receive : ℕ → Received → Client → SharedData → Outcome Turned
receive client_id (bytes b) c d = if ltb (length b) 1024 then answer client_id b c d else fault
receive client_id disconnected c d = clear_assigned_tasks client_id d >>= λ e. done (leave c e [])
receive client_id would_block c d = done (record { client = c; shared = d; sent = [] })
receive client_id recv_failed c d = done (leave c d [])

-- the end of a child that holds a task ten seconds after `last_active_time`
unfoldable pub expire : Client → SharedData → Outcome Turned
expire c d =
    let i = pos_part c.current_task in
    locked_void (λ e. put_task e i (unassign (e.tasks i))) d >>= λ e.
    done (leave (record c { current_task = minus_one }) e [])

-- One turn of the loop of `handle_client`. It takes the mutex at most once, so other processes act
-- before or after it.
unfoldable pub turn : ℕ → ℕ → Received → Client → SharedData → Outcome Turned
turn client_id curr_time input c d =
    if ltb (c.last_active_time + 10) curr_time && not (is_negative c.current_task)
    then expire c d
    else if d.server_shutdown
    then done (leave c d (codes "Server shutting down" ∷ []))
    else receive client_id input c d
