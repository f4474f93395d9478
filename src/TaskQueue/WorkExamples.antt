-- ===== src/TaskQueue/WorkExamples.antt =====
-- Tests of the worker, and its theorems at a concrete queue.
use cn_assignments.Base.{
  ℕ, zero, suc, ◌<◌, ◌≡◌, refl, arith, true, false, none, some, inl, ℤ, pos, negsuc, minus_one,
  Bytes, [], ◌∷◌, done, codes, skip_spaces, scan_number, print_int, digits_before, digits,
  past_digits, is_space, find_from, count,
}
use cn_assignments.TaskQueue.{Task, SharedData, get_next_task, take_task, locked}
use cn_assignments.TaskQueue.Worker.{
  whole, quotient, perform_operation, scan_task, Pair, exchange, work,
}
use cn_assignments.TaskQueue.Work.{IsTask, IsPrinter, given_task}
use cn_assignments.TaskQueue.Completion.{IsStocked, work-Ends}
use cn_assignments.TaskQueue.Unreadable.{unreadable_stays}

-- "%.2f" of a half, whatever the quotient
abbrev print_half : ℤ → ℤ → Bytes
print_half a b = codes "0.50"

print_half-IsPrinter : IsPrinter print_half
print_half-IsPrinter = λ a b. omega arith

abbrev new : Bytes → Task
new t = record { description = t; state = 0; assigned_to_client = minus_one }

abbrev queue_tasks : ℕ → Task
queue_tasks zero = new (codes "12 + 30")
queue_tasks (suc j) = new (codes "1 / 2")

abbrev queue : SharedData
queue = record {
  tasks = queue_tasks;
  task_count = 2;
  next_task_index = 0;
  mutex = 1;
  server_shutdown = false;
}

abbrev pair : SharedData → Pair
pair d = record {
  worker = record { num_tasks = 0; is_running = true };
  client = record { current_task = minus_one; last_active_time = 0; is_open = true };
  shared = d;
}

minus : scan_task (codes " -7*+08") ≡ some (negsuc 6, b'*', pos 8)
unfolding scan_task scan_number skip_spaces digits past_digits is_space
minus = refl

printed : print_int (negsuc 2147483647) ≡ codes "-2147483648"
unfolding print_int digits_before
printed = refl

by_zero : perform_operation (pos 3) b'/' (pos 0) ≡ done (whole (pos 2147483647))
unfolding perform_operation
by_zero = refl

sum-IsTask : IsTask (codes "12 + 30")
unfolding scan_task scan_number skip_spaces digits past_digits is_space perform_operation
sum-IsTask = record {
  num1 = pos 12;
  op = b'+';
  num2 = pos 30;
  value = whole (pos 42);
  is_short = omega arith;
  is_read = refl;
  is_int1 = refl;
  is_int2 = refl;
  is_computed = refl;
}

half-IsTask : IsTask (codes "1 / 2")
unfolding scan_task scan_number skip_spaces digits past_digits is_space perform_operation
half-IsTask = record {
  num1 = pos 1;
  op = b'/';
  num2 = pos 2;
  value = quotient (pos 1) (pos 2);
  is_short = omega arith;
  is_read = refl;
  is_int1 = refl;
  is_int2 = refl;
  is_computed = refl;
}

new_state : (j : ℕ) → (queue.tasks j).state ≡ 0
new_state zero = refl
new_state (suc j) = refl

all-IsTask : (j : ℕ) → IsTask (queue.tasks j).description
all-IsTask zero = sum-IsTask
all-IsTask (suc j) = half-IsTask

queue-IsStocked : IsStocked queue
queue-IsStocked = record {
  mutex_free = refl;
  runs = refl;
  settled = λ j p. inl (new_state j);
  computable = λ j p. all-IsTask j;
}

work-Ends_example :
    (q : Pair) × (work print_half 1 ((1, 1) ∷ (3, 3) ∷ (5, 5) ∷ []) (pair queue) ≡ done q)
    × (q.worker.is_running ≡ false)
    × (q.client.is_open ≡ false)
    × (q.worker.num_tasks ≡ 2)
    × ((j : ℕ) → j < 2 → (q.shared.tasks j).state ≡ 2)
unfolding count
work-Ends_example =
    work-Ends print_half 1 ((1, 1) ∷ (3, 3) ∷ (5, 5) ∷ []) (pair queue) print_half-IsPrinter
      queue-IsStocked refl refl
      ((omega arith, omega arith), ((omega arith, omega arith), ((omega arith, omega arith), tt)))
      (omega arith)

abbrev unreadable : SharedData
unreadable = record queue { tasks = λ i. new (codes "one + 1") }

unreadable_next : get_next_task 1 unreadable ≡ done (pos 0, given_task 1 0 unreadable)
unfolding get_next_task locked take_task find_from
unreadable_next = refl

unreadable_text : scan_task (codes "one + 1") ≡ none
unfolding scan_task scan_number skip_spaces digits past_digits is_space
unreadable_text = refl

unreadable_stays_example :
    (q : Pair) × (exchange print_half 1 1 1 (pair unreadable) ≡ done q)
    × (q.worker ≡ (pair unreadable).worker)
    × ((q.shared.tasks 0).state ≡ 1)
    × (exchange print_half 1 3 3 q ≡ done q)
unreadable_stays_example =
    unreadable_stays print_half 1 0 1 1 3 3 (pair unreadable) refl refl (omega arith) (omega arith)
      (omega arith) (omega arith) unreadable_text unreadable_next
