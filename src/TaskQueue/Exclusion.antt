-- ===== src/TaskQueue/Exclusion.antt =====
-- At most one task is assigned at a time, and to its holder.
use cn_assignments.Base.{ℕ, ◌<◌, ◌≡◌, ap, subst, true, false, inl, inr, pos, arith}
use cn_assignments.TaskQueue.{SharedData}
use cn_assignments.TaskQueue.System.{System, IsAssigned, IsValid, Reach}
use cn_assignments.TaskQueue.Invariant.{Reach-IsValid}

-- main before the first connection, with the mutex free and no task assigned
pub record IsStart (s : System) : Type 0 where
  pub free : s.shared.mutex ≡ 1
  pub fresh : (k : ℕ) → k < s.shared.task_count → (s.shared.tasks k).state ≡ 0
  pub no_clients : (i : ℕ) → (s.clients i).is_open ≡ false

start-IsValid : {s : System} → IsStart s → IsValid s
start-IsValid {s} z = record {
  mutex_free = z.free;
  unique = λ j k p q a b. absurd (omega (arith, z.fresh j p));
  accepted = λ k p a. absurd (omega (arith, z.fresh k p));
  holds = λ i o. let n = z.no_clients i in absurd (ground arith);
  numbered = λ i o. let n = z.no_clients i in absurd (ground arith);
}

pub holder :
    {s : System} {i k : ℕ}
    → IsValid s
    → (s.clients i).is_open ≡ true
    → (s.clients i).current_task ≡ pos k
    → IsAssigned s.shared k i
holder {s} {i} {k} v up h = elim (v.holds i up) [
  | inl e ↦ absurd (ground arith)
  | inr (m, e, a) ↦ let same : m ≡ k = ground arith in subst (λ x. IsAssigned s.shared x i) same a
]

pub one_owner :
    (d : SharedData) (k l i j : ℕ)
    → k ≡ l
    → (d.tasks k).assigned_to_client ≡ pos i
    → (d.tasks l).assigned_to_client ≡ pos j
    → i ≡ j
one_owner d k l i j e p q = let r = ap (λ x. (d.tasks x).assigned_to_client) e in ground arith

-- However main and its children take turns from a start with no task assigned: a child that holds a
-- task is the one to which that task is assigned, no two children hold tasks, and no task is
-- assigned other than the one held.
pub at_most_one_holder :
    {s t : System} (i j k l : ℕ)
    → IsStart s
    → Reach s t
    → (t.clients i).is_open ≡ true
    → (t.clients i).current_task ≡ pos k
    → IsAssigned t.shared k i
      × ((t.clients j).is_open ≡ true → (t.clients j).current_task ≡ pos l → (i ≡ j) × (k ≡ l))
      × ((m : ℕ) → m < t.shared.task_count → (t.shared.tasks m).state ≡ 1 → m ≡ k)
at_most_one_holder {s} {t} i j k l z r up h =
    let v = Reach-IsValid (start-IsValid z) r in
    let a = holder v up h in
    (
      a,
      (λ up' h'.
          let b = holder v up' h' in
          let same = v.unique k l a.in_range b.in_range a.assigned b.assigned in
          (one_owner t.shared k l i j same a.owner b.owner, same)),
      λ m p q. v.unique m k p a.in_range q a.assigned,
    )
