-- ===== src/Scheduler/Next.antt =====
-- kernel/scheduler.cpp, find_next: which sleepers it wakes and which process it chooses.
use sabaka_os.Common.{
  ℕ, ◌+◌, ◌-◌, ◌%◌, ◌≤◌, ◌<◌, ◌≡◌, ◌⊎◌, inl, inr, refl, sym, ◌∙◌, ap, true, false, ◌&&◌, leb, ◌==◌,
  if◌then◌else◌, arith, none, Option-cases, Bool-cases, find_index, find_index-some,
  find_index-none, for_range_inv,
}
use sabaka_os.Scheduler.State.{
  ProcessState, ready, is_ready, is_running, is_sleep, Process, proc_max,
}
use sabaka_os.Scheduler.{wake, wake_all, choose}

-- The state of a process once the sleepers whose time has come are awake.
abbrev pub woken : ℕ → Process → ProcessState
woken now p = if is_sleep p.state && leb p.sleep_until now then ready else p.state

-- The first loop of `find_next` makes ready exactly the processes that sleep and whose time has
-- come, and changes no other state.
pub wake_all-state :
    (now : ℕ) (procs : ℕ → Process) (i : ℕ)
    → i < proc_max
    → (wake_all now procs i).state ≡ woken now (procs i)
unfolding wake_all
wake_all-state now procs i l = result i l
  where
    -- After `k` rounds the first `k` processes are done, and the others are as they were.
    Rounds : ℕ → (ℕ → Process) → Type 0
    Rounds k procs' =
        (j : ℕ)
        → ((procs' j).sleep_until ≡ (procs j).sleep_until)
          × (j < k → (procs' j).state ≡ woken now (procs j))
          × (k ≤ j → (procs' j).state ≡ (procs j).state)

    step :
        (k : ℕ) (procs' : ℕ → Process) (j : ℕ)
        → ((procs' j).sleep_until ≡ (procs j).sleep_until)
          × (j < k → (procs' j).state ≡ woken now (procs j))
          × (k ≤ j → (procs' j).state ≡ (procs j).state)
        → ((wake now k procs' j).sleep_until ≡ (procs j).sleep_until)
          × (j < k + 1 → (wake now k procs' j).state ≡ woken now (procs j))
          × (k + 1 ≤ j → (wake now k procs' j).state ≡ (procs j).state)
    step k procs' j (t, done, left) = elim (Bool-cases (k == j)) [
      | inl e ↦
          let e' : k ≡ j = ground arith in
          let same : (procs' j).state ≡ (procs j).state = left (omega arith) in
          (ground arith, (λ a. ground arith), (λ a. absurd (omega arith)))
      | inr ne ↦ (
        ground arith,
        (λ a. let d : (procs' j).state ≡ woken now (procs j) = done (ground arith) in ground arith),
        (λ a. let d : (procs' j).state ≡ (procs j).state = left (omega arith) in ground arith),
      )
    ]

    result : (j : ℕ) → j < proc_max → (wake_all now procs j).state ≡ woken now (procs j)
    result j b =
        (for_range_inv Rounds (wake now) 0 proc_max (λ k procs' a b' h j'. step k procs' j' (h j'))
            proc_max 0 procs refl (omega arith)
            (λ j'. (refl, (λ a. absurd (omega arith)), (λ a. refl))) j).1
          b

-- The choice of `find_next`: the first ready process after the current one, the current one last.
pub record IsNext (procs : ℕ → Process) (current i : ℕ) : Type 0 where
  pub distance : (1 ≤ i) × (i ≤ proc_max)
  pub is_next : is_ready (procs ((current + i) % proc_max)).state ≡ true
  pub none_between :
      (j : ℕ) → 1 ≤ j → j < i → is_ready (procs ((current + j) % proc_max)).state ≡ false

-- No process of the table is ready.
abbrev pub NoneReady : (ℕ → Process) → Type 0
NoneReady procs = (j : ℕ) → j < proc_max → is_ready (procs j).state ≡ false

none_ready :
    (procs : ℕ → Process) (current : ℕ)
    → current < proc_max
    → find_index (λ i. is_ready (procs ((current + i) % proc_max)).state) 1 proc_max ≡ none
    → NoneReady procs
none_ready procs current l e j b =
    let i = (j + 15 - current) % 16 + 1 in
    let at_j : (current + i) % 16 ≡ j = omega arith in
    ap (λ k. is_ready (procs k).state) (sym at_j)
    ∙ find_index-none (λ i. is_ready (procs ((current + i) % proc_max)).state) 1 proc_max e i
        (omega arith) (omega arith)

-- `find_next` goes round robin: it chooses the first ready process after the current one. Where no
-- process is ready it chooses process 0 if that one runs, and the current process if not.
pub choose_round_robin :
    (procs : ℕ → Process) (current : ℕ)
    → current < proc_max
    → ((i : ℕ) × (choose procs current ≡ (current + i) % proc_max) × IsNext procs current i)
      ⊎ (NoneReady procs
          × (choose procs current ≡ (if is_running (procs 0).state then 0 else current)))
unfolding choose
choose_round_robin procs current l =
    elim (Option-cases
      (find_index (λ i. is_ready (procs ((current + i) % proc_max)).state) 1 proc_max)) [
        | inr (i, e) ↦
            let f =
              find_index-some (λ i. is_ready (procs ((current + i) % proc_max)).state) 1 proc_max
                e in
            inl (
              i,
              rw (e, choose),
              record {
                distance = (f.above, omega (arith, f.below));
                is_next = f.passes;
                none_between = f.earlier;
              },
            )
        | inl e ↦
            let n = none_ready procs current l e in inr (n, rw (e, choose) (rw (n 0 (omega arith))))
      ]

pub choose-lt :
    (procs : ℕ → Process) (current : ℕ) → current < proc_max → choose procs current < proc_max
choose-lt procs current l = elim (choose_round_robin procs current l) [
  | inl (i, e, n) ↦ rw e (omega arith)
  | inr (n, e) ↦ rw e (ground arith)
]
