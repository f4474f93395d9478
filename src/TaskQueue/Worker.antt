-- ===== src/TaskQueue/Worker.antt =====
-- Lab 5/worker_client.c: a worker asks for tasks, computes them and sends the results back.
use cn_assignments.Base.{
  ℕ, zero, suc, ◌+◌, Bool, true, false, not, ◌&&◌, Option, none, some, ltb, ◌==◌, if◌then◌else◌, ℤ,
  pos, negsuc, ◌+ℤ◌, ◌-ℤ◌, mul_ℤ, is_int, Bytes, List, [], ◌∷◌, ◌++◌, length, drop, Outcome, done,
  blocked, fault, ◌>>=◌, codes, starts_with, same_text, skip_spaces, scan_number, print_int,
}
use cn_assignments.TaskQueue.{SharedData, Client, bytes, Turned, turn}

-- the doubles that the operation makes: of an int, or of a quotient of two
pub data Value : Type 0 where
  whole : ℤ → Value
  quotient : ℤ → ℤ → Value

-- An `int` that does not fit is undefined.
abbrev pub int_value : ℤ → Outcome Value
int_value z = if is_int z then done (whole z) else fault

abbrev pub int_max : ℤ
int_max = pos 2147483647

abbrev pub divide : ℤ → ℤ → Value
divide num1 (pos zero) = whole int_max
divide num1 (pos (suc n)) = quotient num1 (pos (suc n))
divide num1 (negsuc n) = quotient num1 (negsuc n)

unfoldable pub perform_operation : ℤ → ℕ → ℤ → Outcome Value
perform_operation num1 op num2 =
    if op == b'+'
    then int_value (num1 +ℤ num2)
    else if op == b'-'
    then int_value (num1 -ℤ num2)
    else if op == b'*'
    then int_value (mul_ℤ num1 num2)
    else if op == b'/'
    then done (divide num1 num2)
    else done (whole (pos 0))

-- What `sscanf(task_str, "%d %c %d", ...)` finds, if it is all three.
unfoldable pub scan_task : Bytes → Option (ℤ × ℕ × ℤ)
scan_task task_str = elim (scan_number task_str) [
  | none ↦ none
  | some p ↦ elim (skip_spaces p.1) [
    | [] ↦ none
    | op ∷ text ↦ elim (scan_number text) [ none ↦ none | some q ↦ some (p.0, op, q.0) ]
  ]
]

-- "%.2f"; of a quotient it is `print_quotient`
abbrev pub print_value : (ℤ → ℤ → Bytes) → Value → Bytes
print_value print_quotient (whole z) = print_int z ++ codes ".00"
print_value print_quotient (quotient a b) = print_quotient a b

abbrev pub result_msg : (ℤ → ℤ → Bytes) → Value → Bytes
result_msg print_quotient v = codes "RESULT " ++ print_value print_quotient v

-- how the loop goes on after the answer to GET_TASK
pub data Next : Type 0 where
  asks_again : Next
  leaves : Next
  sends : Bytes → Next

-- A number that no `int` holds is undefined.
unfoldable pub compute : (ℤ → ℤ → Bytes) → Bytes → Outcome Next
compute print_quotient task_str = elim (scan_task task_str) [
  | none ↦ done asks_again
  | some t ↦
      if is_int t.0 && is_int t.2
      then (perform_operation t.0 t.1 t.2 >>= λ v. done (sends (result_msg print_quotient v)))
      else fault
]

-- The answer is the text before its NUL; `none` stands for the end of the connection, and an answer
-- that fills the buffer has no NUL.
unfoldable pub take_answer : (ℤ → ℤ → Bytes) → Option Bytes → Outcome Next
take_answer print_quotient none = done leaves
take_answer print_quotient (some buffer) =
    if not (ltb (length buffer) 1024)
    then fault
    else if same_text buffer (codes "No tasks available")
    then done leaves
    else if starts_with (codes "Error:") buffer
    then done asks_again
    else if starts_with (codes "Is") buffer
    then done asks_again
    else if starts_with (codes "Task:") buffer
    then compute print_quotient (drop 6 buffer)
    else done asks_again

-- The variables of main; it runs until it leaves the loop.
pub record Worker : Type 0 where
  pub num_tasks : ℕ
  pub is_running : Bool

abbrev pub stop : Worker → Worker
stop w = record w { is_running = false }

-- the acknowledgment of a result
abbrev pub take_acknowledgment : Option Bytes → Worker → Worker
take_acknowledgment none w = stop w
take_acknowledgment (some buffer) w = record w { num_tasks = w.num_tasks + 1 }

-- What `read` returns when the server has sent these messages: it waits for one, and at the end of
-- the connection there is none.
unfoldable pub arrived : Turned → Outcome (Option Bytes)
arrived r = elim r.sent [
  | b ∷ bs ↦ done (some b)
  | [] ↦ if r.client.is_open then blocked else done none
]

-- the variables of the worker and of the server's child, and the shared memory
pub record Pair : Type 0 where
  pub worker : Worker
  pub client : Client
  pub shared : SharedData

-- The end of the loop body, with the server's turn on what the worker sends; a worker that leaves
-- says so.
unfoldable pub go_on : ℕ → ℕ → Worker → Turned → Next → Outcome Pair
go_on client_id time w r asks_again =
    done (record { worker = w; client = r.client; shared = r.shared })
go_on client_id time w r leaves =
    (if r.client.is_open
      then turn client_id time (bytes (codes "exit")) r.client r.shared
      else done r)
    >>= λ q. done (record { worker = stop w; client = q.client; shared = q.shared })
go_on client_id time w r (sends message) =
    turn client_id time (bytes message) r.client r.shared >>= λ q. arrived q >>= λ ack.
    done (record { worker = take_acknowledgment ack w; client = q.client; shared = q.shared })

-- The loop body of the worker with the turns that the server's child makes of it, at two times.
unfoldable pub exchange : (ℤ → ℤ → Bytes) → ℕ → ℕ → ℕ → Pair → Outcome Pair
exchange print_quotient client_id time1 time2 p =
    turn client_id time1 (bytes (codes "GET_TASK")) p.client p.shared >>= λ r.
    arrived r >>= λ buffer.
    take_answer print_quotient buffer >>= λ next. go_on client_id time2 p.worker r next

-- The loop of the worker, with the times of the server's turns.
unfoldable pub work : (ℤ → ℤ → Bytes) → ℕ → List (ℕ × ℕ) → Pair → Outcome Pair
work print_quotient client_id [] p = done p
work print_quotient client_id (t ∷ times) p = elim p.worker.is_running [
  | false ↦ done p
  | true ↦
      exchange print_quotient client_id t.0 t.1 p >>= λ q. work print_quotient client_id times q
]
