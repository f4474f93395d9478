-- ===== src/TaskQueue/System.antt =====
-- main of Lab 5/task_queue_server.c with its children: every order of their turns.
use cn_assignments.Base.{
  ℕ, ◌+◌, ◌<◌, ◌≡◌, Bool, true, false, ◌⊎◌, pos, minus_one, done, update, length,
}
use cn_assignments.TaskQueue.{
  SharedData, Client, Received, bytes, disconnected, would_block, recv_failed, Turned, turn,
  all_tasks_completed, locked_void,
}

-- `clients` are the children by their id, `next_id` is main's client_id; main is `stopping` from the
-- moment it has seen all tasks completed.
pub record System : Type 0 where
  pub shared : SharedData
  pub clients : ℕ → Client
  pub next_id : ℕ
  pub stopping : Bool

abbrev pub new_client : ℕ → Client
new_client now = record { current_task = minus_one; last_active_time = now; is_open = true }

-- fork of a child for a new connection
unfoldable pub accept_client : ℕ → System → System
accept_client now s = record s {
  clients = update s.clients s.next_id (new_client now);
  next_id = s.next_id + 1;
}

abbrev pub set_shutdown : SharedData → SharedData
set_shutdown d = record d { server_shutdown = true }

abbrev pub after_turn : System → ℕ → Turned → System
after_turn s i r = record s { shared = r.shared; clients = update s.clients i r.client }

-- what recv may deliver without the terminator falling outside the buffer
abbrev pub IsShort : Received → Type 0
IsShort (bytes b) = length b < 1024
IsShort disconnected = Unit
IsShort would_block = Unit
IsShort recv_failed = Unit

pub data Step (s : System) : System → Type 0 where
  connect : (now : ℕ) → s.stopping ≡ false → Step s (accept_client now s)
  client_turn :
      (i now : ℕ) (input : Received) (r : Turned)
      → IsShort input
      → (s.clients i).is_open ≡ true
      → turn i now input (s.clients i) s.shared ≡ done r
      → Step s (after_turn s i r)
  see_completed :
      (d : SharedData)
      → s.stopping ≡ false
      → all_tasks_completed s.shared ≡ done (true, d)
      → 0 < s.shared.task_count
      → Step s (record s { shared = d; stopping = true })
  shut_down :
      (d : SharedData)
      → s.stopping ≡ true
      → locked_void set_shutdown s.shared ≡ done d
      → Step s (record s { shared = d })

pub data Reach (s : System) : System → Type 0 where
  here : Reach s s
  later : {t u : System} → Reach s t → Step t u → Reach s u

-- Task `k` is assigned to client `i`.
pub record IsAssigned (d : SharedData) (k i : ℕ) : Type 0 where
  pub in_range : k < d.task_count
  pub assigned : (d.tasks k).state ≡ 1
  pub owner : (d.tasks k).assigned_to_client ≡ pos i

-- a current task that is assigned to the client, or none
abbrev pub Holds : ℕ → Client → SharedData → Type 0
Holds i c d = (c.current_task ≡ minus_one) ⊎ ((k : ℕ) × (c.current_task ≡ pos k) × IsAssigned d k i)

-- The mutex is free, at most one task is assigned, and to a client that main has accepted; an
-- open client has no current task or one that is assigned to it.
pub record IsValid (s : System) : Type 0 where
  pub mutex_free : s.shared.mutex ≡ 1
  pub unique :
      (j k : ℕ)
      → j < s.shared.task_count
      → k < s.shared.task_count
      → (s.shared.tasks j).state ≡ 1
      → (s.shared.tasks k).state ≡ 1
      → j ≡ k
  pub accepted :
      (k : ℕ)
      → k < s.shared.task_count
      → (s.shared.tasks k).state ≡ 1
      → (i : ℕ) × (i < s.next_id) × ((s.shared.tasks k).assigned_to_client ≡ pos i)
  pub holds : (i : ℕ) → (s.clients i).is_open ≡ true → Holds i (s.clients i) s.shared
  pub numbered : (i : ℕ) → (s.clients i).is_open ≡ true → i < s.next_id
