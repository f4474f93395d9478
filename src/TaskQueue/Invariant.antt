-- ===== src/TaskQueue/Invariant.antt =====
-- Every step keeps the invariant of the system.
use cn_assignments.Base.{
  ℕ, ◌+◌, ◌<◌, ◌≡◌, ◌≢◌, refl, ap, sym, subst, true, Bool, inl, inr, pos, done, arith, Bool-cases,
  update, update-cases, ◌∙◌,
}
use cn_assignments.TaskQueue.{
  Task, SharedData, Client, Turned, turn, Received, put_task, assign, unassign, is_assigned_to,
  all_tasks_completed, locked_void,
}
use cn_assignments.TaskQueue.System.{
  System, IsAssigned, IsValid, IsShort, Holds, Step, connect, client_turn, see_completed, shut_down,
  Reach, here, later, accept_client, after_turn, set_shutdown, new_client,
}
use cn_assignments.TaskQueue.Take.{remutex}
use cn_assignments.TaskQueue.Clear.{Clears, cleared, all_tasks_completed_lem}
use cn_assignments.TaskQueue.Turns.{
  Effect, quiet, took, finished, expired, hung_up, turn-Effect, completed,
}

-- Client `i` gives back tasks at most.
pub record Releases (i : ℕ) (d e : SharedData) : Type 0 where
  pub same_count : e.task_count ≡ d.task_count
  pub same_mutex : e.mutex ≡ d.mutex
  pub from : (j : ℕ) → j < d.task_count → (e.tasks j).state ≡ 1 → e.tasks j ≡ d.tasks j
  pub keeps :
      (j : ℕ) → j < d.task_count → (d.tasks j).assigned_to_client ≢ pos i → e.tasks j ≡ d.tasks j

Holds-kept :
    (i x : ℕ) (c : Client) (d e : SharedData) → x ≢ i → Releases i d e → Holds x c d → Holds x c e
Holds-kept i x c d e ne r (inl h) = inl h
Holds-kept i x c d e ne r (inr (k, h, a)) =
    let other : (d.tasks k).assigned_to_client ≢ pos i =
      λ q. let o = a.owner in ne (ground arith) in
    let same = r.keeps k a.in_range other in
    inr (
      k,
      h,
      record {
        in_range = omega (arith, a.in_range, r.same_count);
        assigned = ap (λ (t : Task). t.state) same ∙ a.assigned;
        owner = ap (λ (t : Task). t.assigned_to_client) same ∙ a.owner;
      },
    )

release-IsValid :
    (s : System) (i : ℕ) (c : Client) (e : SharedData)
    → IsValid s
    → (s.clients i).is_open ≡ true
    → Releases i s.shared e
    → (c.is_open ≡ true → Holds i c e)
    → IsValid (record s { shared = e; clients = update s.clients i c })
release-IsValid s i c e v up r mine =
    let n = r.same_count in
    record {
      mutex_free = r.same_mutex ∙ v.mutex_free;
      unique = λ j k p q a b.
          v.unique j k (omega arith) (omega arith)
            (ap (λ (t : Task). t.state) (sym (r.from j (omega arith) a)) ∙ a)
            (ap (λ (t : Task). t.state) (sym (r.from k (omega arith) b)) ∙ b);
      accepted = λ k p a.
          let same = r.from k (omega arith) a in
          let g = v.accepted k (omega arith) (ap (λ (t : Task). t.state) (sym same) ∙ a) in
          (g.0, g.1, ap (λ (t : Task). t.assigned_to_client) same ∙ g.2);
      holds = λ x.
          update-cases (λ y c'. c'.is_open ≡ true → Holds y c' e) s.clients i c x mine
            (λ ne o. Holds-kept i x (s.clients x) s.shared e ne r (v.holds x o));
      numbered = λ x.
          update-cases (λ y c'. c'.is_open ≡ true → y < s.next_id) s.clients i c x
            (λ o. v.numbered i up) (λ ne o. v.numbered x o);
    }

module _ {s : System} {i k : ℕ} (v : IsValid s) (up : (s.clients i).is_open ≡ true)
    (in_range : k < s.shared.task_count)
    (none1 : (j : ℕ) → j < s.shared.task_count → (s.shared.tasks j).state ≢ 1) where
  abbrev given : SharedData
  given = put_task s.shared k (assign i (s.shared.tasks k))

  only : (j : ℕ) → j < s.shared.task_count → (given.tasks j).state ≡ 1 → k ≡ j
  only j =
      update-cases (λ y t. y < s.shared.task_count → t.state ≡ 1 → k ≡ y) s.shared.tasks k
        (assign i (s.shared.tasks k)) j (λ p q. refl) (λ ne p q. absurd (none1 j p q))

  given-owner : (given.tasks k).assigned_to_client ≡ pos i
  given-owner = ground arith

  take-IsValid :
      (c : Client)
      → c.current_task ≡ pos k
      → IsValid (record s { shared = given; clients = update s.clients i c })
  take-IsValid c h = record {
    mutex_free = v.mutex_free;
    unique = λ j l p q a b. sym (only j p a) ∙ only l q b;
    accepted = λ j p a. (
      i,
      v.numbered i up,
      subst (λ y. (given.tasks y).assigned_to_client ≡ pos i) (only j p a) given-owner,
    );
    holds = λ x.
        update-cases (λ y c'. c'.is_open ≡ true → Holds y c' given) s.clients i c x
          (λ o.
            inr
              (k, h, record { in_range = in_range; assigned = ground arith; owner = given-owner }))
          (λ ne o. elim (v.holds x o) [
            | inl e ↦ inl e
            | inr (l, e, a) ↦ absurd (none1 l a.in_range a.assigned)
          ]);
    numbered = λ x.
        update-cases (λ y c'. c'.is_open ≡ true → y < s.next_id) s.clients i c x
          (λ o. v.numbered i up) (λ ne o. v.numbered x o);
  }

-- a task put in place of one that is assigned to the client
pub put-Releases :
    (i k : ℕ) (d : SharedData) (t : Task)
    → IsAssigned d k i
    → t.state ≢ 1
    → Releases i d (put_task d k t)
put-Releases i k d t a ne = record {
  same_count = refl;
  same_mutex = refl;
  from = λ j.
      update-cases (λ y u. y < d.task_count → u.state ≡ 1 → u ≡ d.tasks y) d.tasks k t j
        (λ p q. absurd (ne q)) (λ other p q. refl);
  keeps = λ j.
      update-cases
        (λ y u. y < d.task_count → (d.tasks y).assigned_to_client ≢ pos i → u ≡ d.tasks y) d.tasks k
        t j (λ p q. absurd (q a.owner)) (λ other p q. refl);
}

-- A task that clear_assigned_tasks leaves assigned is one that it leaves alone.
cleared-still : (i : ℕ) (t u : Task) → u ≡ cleared i t → u.state ≡ 1 → u ≡ t
cleared-still i t u e h = elim (Bool-cases (is_assigned_to i t)) [
  | inl y ↦ absurd (ground arith)
  | inr n ↦ e ∙ (ground arith)
]

cleared-other : (i : ℕ) (t : Task) → t.assigned_to_client ≢ pos i → cleared i t ≡ t
cleared-other i t ne = ground arith

pub Clears-Releases : (i : ℕ) (d e : SharedData) → Clears i d e → Releases i d e
Clears-Releases i d e c = record {
  same_count = c.same_count;
  same_mutex = c.same_mutex;
  from = λ j p q. cleared-still i (d.tasks j) (e.tasks j) (c.inside j p) q;
  keeps = λ j p q. c.inside j p ∙ cleared-other i (d.tasks j) q;
}

Holds-same :
    (i : ℕ) (b c : Client) (d : SharedData)
    → c.current_task ≡ b.current_task
    → Holds i b d
    → Holds i c d
Holds-same i b c d h (inl e) = inl (h ∙ e)
Holds-same i b c d h (inr (k, e, a)) = inr (k, h ∙ e, a)

pub Effect-IsValid :
    {i : ℕ} {s : System} {r : Turned}
    → IsValid s
    → (s.clients i).is_open ≡ true
    → Effect i (s.clients i) s.shared r
    → IsValid (after_turn s i r)
Effect-IsValid {i} {s} {r} v up (quiet e h) =
    release-IsValid s i r.client r.shared v up
      (subst (Releases i s.shared) (sym e) (record {
        same_count = refl;
        same_mutex = refl;
        from = λ j p q. refl;
        keeps = λ j p q. refl;
      }))
      (λ o.
        subst (Holds i r.client) (sym e)
          (Holds-same i (s.clients i) r.client s.shared h (v.holds i up)))
Effect-IsValid {i} {s} {r} v up (took k p q _ none1 e h) =
    subst (λ d. IsValid (record s { shared = d; clients = update s.clients i r.client })) (sym e)
      (take-IsValid v up p none1 r.client h)
Effect-IsValid {i} {s} {r} v up (finished k a e h) =
    release-IsValid s i r.client r.shared v up
      (subst (Releases i s.shared) (sym e)
        (put-Releases i k s.shared (completed (s.shared.tasks k)) a (omega arith)))
      (λ o. inl h)
Effect-IsValid {i} {s} {r} v up (expired k a e h) =
    release-IsValid s i r.client r.shared v up
      (subst (Releases i s.shared) (sym e)
        (put-Releases i k s.shared (unassign (s.shared.tasks k)) a (omega arith)))
      (λ o. absurd (ground arith))
Effect-IsValid {i} {s} {r} v up (hung_up c h) =
    release-IsValid s i r.client r.shared v up (Clears-Releases i s.shared r.shared c)
      (λ o. absurd (ground arith))

accept-IsValid : (now : ℕ) (s : System) → IsValid s → IsValid (accept_client now s)
unfolding accept_client
accept-IsValid now s v = record {
  mutex_free = v.mutex_free;
  unique = v.unique;
  accepted = λ k p a. let g = v.accepted k p a in (g.0, omega (arith, g.1), g.2);
  holds = λ i.
      update-cases (λ j c. c.is_open ≡ true → Holds j c s.shared) s.clients s.next_id
        (new_client now) i (λ o. inl refl) (λ ne o. v.holds i o);
  numbered = λ i.
      update-cases (λ j c. c.is_open ≡ true → j < s.next_id + 1) s.clients s.next_id
        (new_client now) i (λ o. omega arith) (λ ne o. omega (arith, v.numbered i o));
}

-- A turn of the relation has one of the five effects.
pub step-Effect :
    {s : System} (i now : ℕ) (input : Received) (r : Turned)
    → IsValid s
    → IsShort input
    → (s.clients i).is_open ≡ true
    → turn i now input (s.clients i) s.shared ≡ done r
    → Effect i (s.clients i) s.shared r
step-Effect {s} i now input r v short up e =
    let g = turn-Effect i now input (s.clients i) s.shared short v.mutex_free (v.holds i up) in
    let eq = g.1 in let same : g.0 ≡ r = cc in subst (Effect i (s.clients i) s.shared) same g.2

-- main's test leaves the shared memory as it is.
pub see-same :
    (d e : SharedData) (b : Bool) → d.mutex ≡ 1 → all_tasks_completed d ≡ done (b, e) → d ≡ e
see-same d e b h q = let g = all_tasks_completed_lem d h in let eq = g.1 in cc

pub shut-same :
    (d e : SharedData) → d.mutex ≡ 1 → locked_void set_shutdown d ≡ done e → set_shutdown d ≡ e
unfolding locked_void
shut-same d e h q =
    let g : locked_void set_shutdown d ≡ done (set_shutdown d) =
      ground (arith, remutex (set_shutdown d) h) in
    cc

-- Every step of main or of a child keeps the invariant.
pub Step-IsValid : {s t : System} → IsValid s → Step s t → IsValid t
Step-IsValid {s} v (connect now _) = accept-IsValid now s v
Step-IsValid {s} v (client_turn i now input r short up e) =
    Effect-IsValid v up (step-Effect i now input r v short up e)
Step-IsValid {s} v (see_completed d _ e p) =
    subst (λ x. IsValid (record s { shared = x; stopping = true }))
      (see-same s.shared d true v.mutex_free e)
      (record {
        mutex_free = v.mutex_free;
        unique = v.unique;
        accepted = v.accepted;
        holds = v.holds;
        numbered = v.numbered;
      })
Step-IsValid {s} v (shut_down d _ e) =
    subst (λ x. IsValid (record s { shared = x })) (shut-same s.shared d v.mutex_free e)
      (record {
        mutex_free = v.mutex_free;
        unique = v.unique;
        accepted = v.accepted;
        holds = λ i o. elim (v.holds i o) [
          | inl n ↦ inl n
          | inr (k, h, a) ↦
              inr (k, h, record { in_range = a.in_range; assigned = a.assigned; owner = a.owner })
        ];
        numbered = v.numbered;
      })

pub Reach-IsValid : {s t : System} → IsValid s → Reach s t → IsValid t
Reach-IsValid v here = v
Reach-IsValid v (later r st) = Step-IsValid (Reach-IsValid v r) st
