-- ===== src/TaskQueue/Abandoned.antt =====
-- A task whose holder has left the loop while it was assigned.
use cn_assignments.Base.{
  ℕ, ◌+◌, ◌≤◌, ◌<◌, ◌≡◌, ◌≢◌, refl, ap, sym, subst, true, false, ℤ, pos, negsuc, done, arith,
  update, update-cases, ◌∙◌, [], codes, starts_with,
}
use cn_assignments.TaskQueue.{
  Task, SharedData, Client, Turned, turn, bytes, receive, answer, unassign, leave, get_next_task,
}
use cn_assignments.TaskQueue.System.{
  System, IsAssigned, IsValid, Step, connect, client_turn, see_completed, shut_down, Reach, here,
  later, accept_client, after_turn, new_client,
}
use cn_assignments.TaskQueue.Take.{Taken, busy, exhausted, given, get_next_task-Taken}
use cn_assignments.TaskQueue.Clear.{all_tasks_completed_lem}
use cn_assignments.TaskQueue.Turns.{Effect, quiet, took, finished, expired, hung_up, completed}
use cn_assignments.TaskQueue.Invariant.{
  Releases, put-Releases, Clears-Releases, step-Effect, shut-same, Step-IsValid, Reach-IsValid,
}
use cn_assignments.TaskQueue.Exclusion.{one_owner, holder}

-- Task `k` is assigned to client `i`, which is gone.
pub record IsAbandoned (s : System) (k i : ℕ) : Type 0 where
  pub task : IsAssigned s.shared k i
  pub gone : (s.clients i).is_open ≡ false
  pub known : i < s.next_id

-- While a task is assigned, a turn gives tasks back at most.
Effect-Releases :
    {j k : ℕ} {c : Client} {d : SharedData} {r : Turned}
    → k < d.task_count
    → (d.tasks k).state ≡ 1
    → Effect j c d r
    → Releases j d r.shared
Effect-Releases {j} {k} {c} {d} p q (quiet e h) =
    subst (Releases j d) (sym e)
      (record { same_count = refl; same_mutex = refl; from = λ x u v. refl; keeps = λ x u v. refl })
Effect-Releases {j} {k} {c} {d} p q (took l _ _ _ none1 e h) = absurd (none1 k p q)
Effect-Releases {j} {k} {c} {d} p q (finished l a e h) =
    subst (Releases j d) (sym e) (put-Releases j l d (completed (d.tasks l)) a (omega arith))
Effect-Releases {j} {k} {c} {d} p q (expired l a e h) =
    subst (Releases j d) (sym e) (put-Releases j l d (unassign (d.tasks l)) a (omega arith))
Effect-Releases {j} {k} {c} {d} {r} p q (hung_up z h) = Clears-Releases j d r.shared z

turn-IsAbandoned :
    {s : System} {j k i : ℕ} {r : Turned}
    → IsAbandoned s k i
    → (s.clients j).is_open ≡ true
    → Effect j (s.clients j) s.shared r
    → IsAbandoned (after_turn s j r) k i
turn-IsAbandoned {s} {j} {k} {i} {r} b up e =
    let a = b.task in
    let rel = Effect-Releases a.in_range a.assigned e in
    let other : j ≢ i = λ q.
      let u = subst (λ x. (s.clients x).is_open ≡ true) q up in let g = b.gone in ground arith in
    let same = rel.keeps k a.in_range (λ q. other (one_owner s.shared k k j i refl q a.owner)) in
    record {
      task = record {
        in_range = omega (arith, rel.same_count, a.in_range);
        assigned = ap (λ (t : Task). t.state) same ∙ a.assigned;
        owner = ap (λ (t : Task). t.assigned_to_client) same ∙ a.owner;
      };
      gone =
          update-cases (λ x c. x ≡ i → c.is_open ≡ false) s.clients j r.client i
            (λ q. absurd (other q)) (λ ne q. b.gone) refl;
      known = b.known;
    }

accept-IsAbandoned :
    (now : ℕ) (s : System) (k i : ℕ) → IsAbandoned s k i → IsAbandoned (accept_client now s) k i
unfolding accept_client
accept-IsAbandoned now s k i b = record {
  task = b.task;
  gone =
      update-cases (λ x c. x ≡ i → c.is_open ≡ false) s.clients s.next_id (new_client now) i
        (λ q. absurd (omega (arith, b.known))) (λ ne q. b.gone) refl;
  known = omega (arith, b.known);
}

Step-IsAbandoned :
    {s t : System} {k i : ℕ}
    → IsValid s
    → IsAbandoned s k i
    → Step s t
    → IsAbandoned t k i × (t.stopping ≡ s.stopping)
unfolding accept_client
Step-IsAbandoned {s} {t} {k} {i} v b (connect now _) = (accept-IsAbandoned now s k i b, refl)
Step-IsAbandoned {s} {t} {k} {i} v b (client_turn j now input r short up e) =
    (turn-IsAbandoned b up (step-Effect j now input r v short up e), refl)
Step-IsAbandoned {s} {t} {k} {i} v b (see_completed d _ e p) =
    let g = all_tasks_completed_lem s.shared v.mutex_free in
    let eq = g.1 in
    let yes_all : g.0 ≡ true = cc in
    absurd (omega (arith, g.2.0 yes_all k b.task.in_range, b.task.assigned))
Step-IsAbandoned {s} {t} {k} {i} v b (shut_down d _ e) = (
  subst (λ x. IsAbandoned (record s { shared = x }) k i) (shut-same s.shared d v.mutex_free e)
      (record {
        task = record {
          in_range = b.task.in_range;
          assigned = b.task.assigned;
          owner = b.task.owner;
        };
        gone = b.gone;
        known = b.known;
      }),
  refl,
)

Reach-IsAbandoned :
    {s t : System} {k i : ℕ}
    → IsValid s
    → IsAbandoned s k i
    → Reach s t
    → IsAbandoned t k i × (t.stopping ≡ s.stopping)
Reach-IsAbandoned v b here = (b, refl)
Reach-IsAbandoned v b (later r st) =
    let g = Reach-IsAbandoned v b r in
    let h = Step-IsAbandoned (Reach-IsValid v r) g.0 st in (h.0, h.1 ∙ g.1)

refused-Taken :
    (j k : ℕ) (d : SharedData) (r : ℤ × SharedData)
    → k < d.task_count
    → (d.tasks k).state ≡ 1
    → Taken j d r
    → r ≡ (negsuc 1, d)
refused-Taken j k d _ p q (busy _ _ _) = refl
refused-Taken j k d _ p q (exhausted _ none1) = absurd (none1 k p q)
refused-Taken j k d _ p q (given _ _ _ _ none1) = absurd (none1 k p q)

refused :
    (j k : ℕ) (d : SharedData)
    → d.mutex ≡ 1
    → k < d.task_count
    → (d.tasks k).state ≡ 1
    → get_next_task j d ≡ done (negsuc 1, d)
refused j k d h p q =
    let g = get_next_task-Taken j d h in g.1 ∙ ap done (refused-Taken j k d g.0 p q g.2)

exit_turn :
    (i now : ℕ) (c : Client) (d : SharedData)
    → now ≤ c.last_active_time + 10
    → d.server_shutdown ≡ false
    → turn i now (bytes (codes "exit")) c d ≡ done (leave c d [])
unfolding turn receive answer starts_with
exit_turn i now c d h q = ground arith

-- In a valid system, a client that holds a task sends "exit" in its first ten seconds, before the
-- shutdown: its child leaves the loop with the task still assigned, and whatever happens
-- afterwards, get_next_task gives every client -2, and main never comes to see all tasks completed.
pub exit_blocks_queue :
    {s u : System} (i j k now : ℕ)
    → IsValid s
    → (s.clients i).is_open ≡ true
    → (s.clients i).current_task ≡ pos k
    → now ≤ (s.clients i).last_active_time + 10
    → s.shared.server_shutdown ≡ false
    → Reach (after_turn s i (leave (s.clients i) s.shared [])) u
    → (turn i now (bytes (codes "exit")) (s.clients i) s.shared
        ≡ done (leave (s.clients i) s.shared []))
      × (get_next_task j u.shared ≡ done (negsuc 1, u.shared))
      × (u.stopping ≡ s.stopping)
exit_blocks_queue {s} {u} i j k now v up h early running r =
    let e = exit_turn i now (s.clients i) s.shared early running in
    let v' = Step-IsValid v (client_turn i now (bytes (codes "exit")) _ (omega arith) up e) in
    let closed : (update s.clients i (record (s.clients i) { is_open = false }) i).is_open ≡ false =
      ground arith in
    let b =
      Reach-IsAbandoned v' (record { task = holder v up h; gone = closed; known = v.numbered i up })
        r in
    let a = b.0.task in
    (e, refused j k u.shared (Reach-IsValid v' r).mutex_free a.in_range a.assigned, b.1)
