-- ===== src/TaskQueue/Progress.antt =====
-- What becomes of the work of a client that is slow or hangs up.
use cn_assignments.Base.{ℕ, ◌+◌, ◌<◌, ◌≡◌, refl, false, pos, minus_one, done, arith, ◌∙◌, ap, []}
use cn_assignments.TaskQueue.{
  Task, SharedData, Client, Turned, turn, receive, Received, disconnected, expire, locked_void,
  put_task, unassign, leave,
}
use cn_assignments.TaskQueue.Take.{remutex}
use cn_assignments.TaskQueue.Clear.{clear_assigned_tasks_lem}

-- A child that holds a task more than ten seconds after the connection began gives the task back
-- and leaves, whatever the client has sent meanwhile, its result included.
pub old_client_expires :
    (i now k : ℕ) (input : Received) (c : Client) (d : SharedData)
    → d.mutex ≡ 1
    → c.current_task ≡ pos k
    → c.last_active_time + 10 < now
    → turn i now input c d
      ≡ done
          (leave (record c { current_task = minus_one }) (put_task d k (unassign (d.tasks k))) [])
unfolding turn expire locked_void
old_client_expires i now k input c d h e late = ground (arith, remutex d h)

-- When a client that holds nothing hangs up before the shutdown, every task that bears its number
-- goes back to state 0, the completed ones too.
pub hang_up_uncompletes :
    (i now k : ℕ) (c : Client) (d : SharedData)
    → d.mutex ≡ 1
    → d.server_shutdown ≡ false
    → c.current_task ≡ minus_one
    → k < d.task_count
    → (d.tasks k).assigned_to_client ≡ pos i
    → (r : Turned) × (turn i now disconnected c d ≡ done r)
      × (r.client.is_open ≡ false)
      × (((r.shared).tasks k).state ≡ 0)
unfolding turn receive
hang_up_uncompletes i now k c d h running free p own =
    let g = clear_assigned_tasks_lem i d h in
    (
      leave c g.0 [],
      ground (arith, g.1),
      refl,
      ap (λ (t : Task). t.state) (g.2.inside k p) ∙ ground arith,
    )
