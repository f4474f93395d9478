-- ===== src/TaskQueue/TaskExamples.antt =====
-- Tests of the task queue, and its theorems at concrete systems.
use cn_assignments.Base.{
  ℕ, ◌<◌, ◌≡◌, refl, true, false, inl, inr, ℤ, pos, negsuc, minus_one, done, arith, [], ◌∷◌, codes,
  update, update-cases, find_from, starts_with, get_or,
}
use cn_assignments.TaskQueue.{
  SharedData, Client, Turned, turn, bytes, receive, answer, answer_task, get_next_task, take_task,
  locked, leave, put_task, init_shared_memory, assign,
}
use cn_assignments.Base.{fgets, unlines}
use cn_assignments.TaskQueue.Load.{load_tasks, new_task, load_tasks-unlines, load_lines}
use cn_assignments.TaskQueue.System.{
  System, IsAssigned, IsValid, Holds, Reach, here, later, accept_client, connect, client_turn,
  after_turn,
}
use cn_assignments.TaskQueue.Take.{Taken, get_next_task-Taken}
use cn_assignments.TaskQueue.Turns.{Effect, turn-Effect}
use cn_assignments.TaskQueue.Exclusion.{at_most_one_holder}
use cn_assignments.TaskQueue.Abandoned.{exit_blocks_queue}

loaded : (load_tasks true (codes "1 + 2\n4 * 5\n") init_shared_memory).0 ≡ pos 2
unfolding load_tasks load_lines fgets init_shared_memory
loaded = refl

no_file : load_tasks false [] init_shared_memory ≡ (minus_one, init_shared_memory)
unfolding load_tasks
no_file = refl

-- two tasks that nobody has taken
abbrev fresh : SharedData
fresh = record {
  tasks = λ i. new_task (codes "1 + 2");
  task_count = 2;
  next_task_index = 0;
  mutex = 1;
  server_shutdown = false;
}

-- the first one is completed by client 0
abbrev half : SharedData
half =
    put_task fresh 0 (record { description = codes "1 + 2"; state = 2; assigned_to_client = pos 0 })

abbrev idle : Client
idle = record { current_task = minus_one; last_active_time = 0; is_open = true }

abbrev busy_client : Client
busy_client = record { current_task = pos 1; last_active_time = 0; is_open = true }

-- the second task is with client 0
abbrev taken : SharedData
taken = put_task half 1 (assign 0 (new_task (codes "1 + 2")))

abbrev system : System
system = record {
  shared = fresh;
  clients = λ i. record idle { is_open = false };
  next_id = 0;
  stopping = false;
}

abbrev first_turn : Turned
first_turn = record {
  client = record idle { current_task = pos 0 };
  shared = put_task fresh 0 (assign 0 (new_task (codes "1 + 2")));
  sent = codes "Task: 1 + 2" ∷ [];
}

-- client 0 connects and asks for a task
abbrev asked : System
asked = after_turn (accept_client 0 system) 0 first_turn

asked_turn : turn 0 1 (bytes (codes "GET_TASK")) idle fresh ≡ done first_turn
unfolding turn receive answer starts_with get_next_task locked take_task answer_task find_from
asked_turn = refl

asked_later : Reach system asked
unfolding accept_client
asked_later =
    later (later here (connect 0 refl))
      (client_turn 0 1 (bytes (codes "GET_TASK")) first_turn (omega arith) refl asked_turn)

at_most_one_holder_example :
    IsAssigned asked.shared 0 0
    × ((asked.clients 1).is_open ≡ true
        → (asked.clients 1).current_task ≡ pos 1
        → (◌≡◌ {A = ℕ} 0 1) × (◌≡◌ {A = ℕ} 0 1))
    × ((m : ℕ) → m < asked.shared.task_count → (asked.shared.tasks m).state ≡ 1 → m ≡ 0)
unfolding accept_client
at_most_one_holder_example =
    at_most_one_holder 0 1 0 1 (record { free = refl; fresh = λ k p. refl; no_clients = λ i. refl })
      asked_later refl refl

-- client 0 holds the second task
abbrev held : System
held = record {
  shared = taken;
  clients = update (λ i. record idle { is_open = false }) 0 busy_client;
  next_id = 1;
  stopping = false;
}

held-Holds : IsAssigned taken 1 0
held-Holds = record { in_range = omega arith; assigned = refl; owner = refl }

held-IsValid : IsValid held
held-IsValid = record {
  mutex_free = refl;
  unique = λ j k p q a b. ground arith;
  accepted = λ k p a. (0, omega arith, ground arith);
  holds = λ i.
      update-cases (λ j c. c.is_open ≡ true → Holds j c taken)
        (λ j. record idle { is_open = false }) 0 busy_client i (λ o. inr (1, refl, held-Holds))
        (λ ne o. inl refl);
  numbered = λ i o. ground arith;
}

exit_blocks_queue_example :
    (turn 0 5 (bytes (codes "exit")) busy_client taken ≡ done (leave busy_client taken []))
    × (get_next_task 7 taken ≡ done (negsuc 1, taken))
    × (false ≡ false)
exit_blocks_queue_example = exit_blocks_queue 0 7 1 5 held-IsValid refl refl (omega arith) refl here

get_next_task-Taken_example :
    (r : ℤ × SharedData) × (get_next_task 4 half ≡ done r) × Taken 4 half r
get_next_task-Taken_example = get_next_task-Taken 4 half refl

turn-Effect_example :
    (r : Turned) × (turn 0 3 (bytes (codes "RESULT 3.00")) busy_client taken ≡ done r)
    × Effect 0 busy_client taken r
turn-Effect_example =
    turn-Effect 0 3 (bytes (codes "RESULT 3.00")) busy_client taken (omega arith) refl
      (inr (1, refl, held-Holds))

load_tasks-unlines_example :
    (e : SharedData) × (load_tasks true
        (unlines (codes "1 + 2" ∷ codes "4 * 5" ∷ []))
        init_shared_memory
      ≡ (pos 2, e))
    × (e.task_count ≡ 2)
    × ((j : ℕ) → j < 2 → e.tasks j ≡ new_task (get_or (codes "1 + 2" ∷ codes "4 * 5" ∷ []) j []))
load_tasks-unlines_example =
    load_tasks-unlines (codes "1 + 2" ∷ codes "4 * 5" ∷ []) init_shared_memory (ground arith)
      (omega arith)
