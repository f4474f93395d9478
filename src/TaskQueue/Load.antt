-- ===== src/TaskQueue/Load.antt =====
-- load_tasks of Lab 5/task_queue_server.c, over the bytes of the config file.
use cn_assignments.Base.{
  ℕ, zero, suc, ◌+◌, ◌-◌, ◌≤◌, ◌<◌, ◌≡◌, refl, ap, ◌∙◌, Bool, true, not, ℤ, pos, minus_one, arith,
  if◌then◌else◌, Bytes, List, [], ◌∷◌, ◌++◌, length, get_or, All, fgets, chomp, unlines, IsLine,
  fgets-line, chomp-line,
}
use cn_assignments.TaskQueue.{Task, SharedData, put_task, max_tasks, max_task_len}

abbrev pub new_task : Bytes → Task
new_task description = record {
  description = description;
  state = 0;
  assigned_to_client = minus_one;
}

-- The loop, with room for `n` more tasks.
unfoldable pub load_lines : ℕ → ℕ → Bytes → SharedData → ℕ × SharedData
load_lines zero count file d = (count, d)
load_lines (suc n) count [] d = (count, d)
load_lines (suc n) count (c ∷ file) d =
    let line = fgets (max_task_len - 1) (c ∷ file) in
    load_lines n (count + 1) line.1 (put_task d count (new_task (chomp line.0)))

-- `opened` says whether `fopen` succeeded.
unfoldable pub load_tasks : Bool → Bytes → SharedData → ℤ × SharedData
load_tasks opened file d =
    if not opened
    then (minus_one, d)
    else let r = load_lines max_tasks 0 file d in
      (pos r.0, record (r.1) { task_count = r.0; next_task_index = 0 })

load_lines-end : (n count : ℕ) (d : SharedData) → load_lines n count [] d ≡ (count, d)
unfolding load_lines
load_lines-end zero count d = refl
load_lines-end (suc n) count d = refl

-- the tasks of the lines, from place `count` on
unfoldable put_lines : ℕ → List Bytes → SharedData → SharedData
put_lines count [] d = d
put_lines count (line ∷ lines) d = put_lines (count + 1) lines (put_task d count (new_task line))

after_line :
    (n count : ℕ) (r : Bytes × Bytes) (line rest : Bytes) (d : SharedData)
    → r ≡ (line ++ b'\n' ∷ [], rest)
    → chomp (line ++ b'\n' ∷ []) ≡ line
    → load_lines n (count + 1) r.1 (put_task d count (new_task (chomp r.0)))
      ≡ load_lines n (count + 1) rest (put_task d count (new_task line))
after_line n count r line rest d e f =
    let g : chomp r.0 ≡ line = ap (λ (x : Bytes × Bytes). chomp x.0) e ∙ f in
    ap
      (λ (x : Bytes × Bytes).
        load_lines n (count + 1) x.1 (put_task d count (new_task (chomp r.0))))
      e
    ∙ ap (λ t. load_lines n (count + 1) rest (put_task d count (new_task t))) g

load_lines-line :
    (n count : ℕ) (line rest : Bytes) (d : SharedData)
    → IsLine 49 line
    → load_lines (suc n) count (line ++ b'\n' ∷ rest) d
      ≡ load_lines n (count + 1) rest (put_task d count (new_task line))
unfolding load_lines
load_lines-line n count [] rest d h =
    after_line n count (fgets 49 (b'\n' ∷ rest)) [] rest d (fgets-line 49 [] rest h.0 h.1)
      (chomp-line [] h.0)
load_lines-line n count (c ∷ line) rest d h =
    after_line n count (fgets 49 (c ∷ line ++ b'\n' ∷ rest)) (c ∷ line) rest d
      (fgets-line 49 (c ∷ line) rest h.0 h.1) (chomp-line (c ∷ line) h.0)

load_lines-unlines :
    (n count : ℕ) (lines : List Bytes) (d : SharedData)
    → All (IsLine 49) lines
    → length lines ≤ n
    → load_lines n count (unlines lines) d ≡ (count + length lines, put_lines count lines d)
unfolding unlines put_lines
load_lines-unlines n count [] d h p = load_lines-end n count d ∙ ap (λ k. (k, d)) (omega arith)
load_lines-unlines zero count (line ∷ lines) d h p = absurd (omega arith)
load_lines-unlines (suc n) count (line ∷ lines) d h p =
    load_lines-line n count line (unlines lines) d h.0
    ∙ load_lines-unlines n (count + 1) lines (put_task d count (new_task line)) h.1 (omega arith)
    ∙ ap (λ k. (k, put_lines count (line ∷ lines) d)) (omega arith)

put_lines-below :
    (lines : List Bytes) (count j : ℕ) (d : SharedData)
    → j < count
    → (put_lines count lines d).tasks j ≡ d.tasks j
unfolding put_lines
put_lines-below [] count j d h = refl
put_lines-below (line ∷ lines) count j d h =
    put_lines-below lines (count + 1) j (put_task d count (new_task line)) (omega arith)
    ∙ ground arith

put_lines-at :
    (lines : List Bytes) (count j i : ℕ) (d : SharedData)
    → j < length lines
    → i ≡ count + j
    → (put_lines count lines d).tasks i ≡ new_task (get_or lines j [])
unfolding put_lines
put_lines-at [] count j i d h e = absurd (omega arith)
put_lines-at (line ∷ lines) count zero i d h e =
    put_lines-below lines (count + 1) i (put_task d count (new_task line)) (omega arith)
    ∙ ground arith
put_lines-at (line ∷ lines) count (suc j) i d h e =
    put_lines-at lines (count + 1) j i (put_task d count (new_task line)) (omega arith)
      (omega arith)

-- A config file of at most 100 lines, each below 49 bytes, is read back: load_tasks returns their
-- number, and task `j` has the text of line `j`, is not assigned, and belongs to no client.
pub load_tasks-unlines :
    (lines : List Bytes) (d : SharedData)
    → All (IsLine 49) lines
    → length lines ≤ 100
    → (e : SharedData) × (load_tasks true (unlines lines) d ≡ (pos (length lines), e))
      × (e.task_count ≡ length lines)
      × ((j : ℕ) → j < length lines → e.tasks j ≡ new_task (get_or lines j []))
unfolding load_tasks
load_tasks-unlines lines d h p =
    let f = put_lines 0 lines d in
    let z : 0 + length lines ≡ length lines = omega arith in
    let e = load_lines-unlines 100 0 lines d h p ∙ ap (λ k. (k, f)) z in
    (
      record f { task_count = length lines; next_task_index = 0 },
      ap (λ (r : ℕ × SharedData). (pos r.0, record (r.1) { task_count = r.0; next_task_index = 0 }))
          e,
      refl,
      λ j q. put_lines-at lines 0 j j d q (omega arith),
    )
