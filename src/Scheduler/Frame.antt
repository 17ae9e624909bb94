-- ===== src/Scheduler/Frame.antt =====
-- kernel/scheduler.cpp and kernel/context_switch.asm: a new process starts in `proc_entry` with its
-- arguments on a stack of its own.
use sabaka_os.KString.Text.{CString}
use sabaka_os.Scheduler.{alloc_proc}
use sabaka_os.Common.{
  find_index-none, false, refl, subst, find_index-some, Option, inl, inr, sym, ◌∙◌, ap, none, ◌≢◌,
  Option-cases, true, ◌⊎◌, some, ◌<◌, ℕ, ◌+◌, ◌≤◌, ◌≡◌, arith,
}
use sabaka_os.Scheduler.State.{ready, is_dead, proc_max, Scheduler, proc_stack_size}
use sabaka_os.Scheduler.Create.{Image, process_create, process_create_user, initial_stack}

-- The registers that `context_switch` loads, and where it returns to.
pub record Registers : Type 0 where
  pub edi : ℕ
  pub esi : ℕ
  pub ebx : ℕ
  pub ebp : ℕ
  pub eip : ℕ
  pub esp : ℕ

-- `mov esp, [esp + 24]`, four `pop`s and `ret`, of the stack pointer that is loaded.
pub resume : (ℕ → ℕ) → ℕ → Registers
resume mem esp = record {
  edi = mem esp;
  esi = mem (esp + 4);
  ebx = mem (esp + 8);
  ebp = mem (esp + 12);
  eip = mem (esp + 16);
  esp = esp + 20;
}

-- Where a new process stands when it is first switched to: in `proc_entry`, with the three
-- arguments above a return address, all inside its stack.
pub record Starts (mem : ℕ → ℕ) (esp base entry p func arg : ℕ) : Type 0 where
  pub eip : (resume mem esp).eip ≡ entry
  pub first : mem ((resume mem esp).esp + 4) ≡ p
  pub second : mem ((resume mem esp).esp + 8) ≡ func
  pub third : mem ((resume mem esp).esp + 12) ≡ arg
  pub inside : (base ≤ esp) × ((resume mem esp).esp + 16 ≡ base + proc_stack_size)

initial_stack-Starts :
    (mem : ℕ → ℕ) (base arg func p entry : ℕ)
    → let k = initial_stack (record { mem = mem; sp = base + proc_stack_size }) arg func p entry in
      Starts k.mem k.sp base entry p func arg
unfolding initial_stack resume
initial_stack-Starts mem base arg func p entry = record {
  eip = ground arith;
  first = ground arith;
  second = ground arith;
  third = ground arith;
  inside = (omega arith, omega arith);
}

-- A slot of the table that was dead and now holds a ready process with a pid.
pub record Created (s s' : Scheduler) (i pid : ℕ) : Type 0 where
  pub in_table : i < proc_max
  pub was_dead : is_dead (s.procs i).state ≡ true
  pub is_ready_now : (s'.procs i).state ≡ ready
  pub has_pid : (s'.procs i).pid ≡ pid

-- With a stack at hand `process_create` takes a dead slot for a ready process, which starts in
-- `proc_entry` with the process, the function and its argument; where no slot is dead it returns
-- null and changes nothing. It starts a process exactly where some slot is dead.
pub process_create-Starts :
    (s : Scheduler) (img : Image) (func arg : ℕ) (name : CString) (priority base : ℕ)
    → let (s', r) = process_create s img func arg name priority (some base) in
      ((i : ℕ) × (r ≡ some i)
        × Created s s' i s.next_pid
        × Starts s'.mem (s'.procs i).esp base img.proc_entry (img.proc_addr i) func arg)
      ⊎ ((r ≡ none) × (s' ≡ s) × ((j : ℕ) → j < proc_max → is_dead (s.procs j).state ≡ false))
unfolding process_create
process_create-Starts s img func arg name priority base = elim (Option-cases (alloc_proc s.procs)) [
  | inl e ↦
      rw (e, process_create)
        (inr (
          refl,
          refl,
          λ j b.
              find_index-none (λ k. is_dead (s.procs k).state) 0 proc_max e j (omega arith)
                (omega arith),
        ))
  | inr (i, e) ↦
      let f = find_index-some (λ j. is_dead (s.procs j).state) 0 proc_max e in
      let k =
        initial_stack (record { mem = s.mem; sp = base + proc_stack_size }) arg func
          (img.proc_addr i) img.proc_entry in
      rw (e, process_create)
        (inl (
          i,
          refl,
          record {
            in_table = omega (arith, f.below);
            was_dead = f.passes;
            is_ready_now = ground arith;
            has_pid = ground arith;
          },
          subst (λ sp. Starts k.mem sp base img.proc_entry (img.proc_addr i) func arg)
              (ground arith)
              (initial_stack-Starts s.mem base arg func (img.proc_addr i) img.proc_entry),
        ))
]

process_create_user-Created :
    (s : Scheduler) (img : Image) (entry : ℕ) (name : CString) (priority base : ℕ)
    → let (s', r) = process_create_user s img entry name priority (some base) true in
      ((i : ℕ) × (r ≡ some i)
        × Created s s' i s.next_user_pid
        × ((j : ℕ) → i ≢ j → (s'.procs j).pid ≡ (s.procs j).pid))
      ⊎ (r ≡ none)
unfolding process_create_user
process_create_user-Created s img entry name priority base =
    elim (Option-cases (alloc_proc s.procs)) [
      | inl e ↦ rw (e, process_create_user) (inr refl)
      | inr (i, e) ↦
          let f = find_index-some (λ j. is_dead (s.procs j).state) 0 proc_max e in
          rw (e, process_create_user)
            (inl (
              i,
              refl,
              record {
                in_table = omega (arith, f.below);
                was_dead = f.passes;
                is_ready_now = ground arith;
                has_pid = ground arith;
              },
              λ j ne. ground arith,
            ))
    ]

next_user_pid-process_create :
    (s : Scheduler) (img : Image) (func arg : ℕ) (name : CString) (priority base : ℕ)
    → (process_create s img func arg name priority (some base)).0.next_user_pid ≡ s.next_user_pid
unfolding process_create
next_user_pid-process_create s img func arg name priority base =
    elim (Option-cases (alloc_proc s.procs)) [
      | inl e ↦ rw (e, process_create)
      | inr (i, e) ↦ rw (e, process_create)
    ]

-- A kernel process and then a user process.
abbrev pub both_created :
    (s : Scheduler) (img : Image) (func arg entry : ℕ) (name name' : CString)
    → (priority priority' base base' : ℕ) → Scheduler × Option ℕ
both_created s img func arg entry name name' priority priority' base base' =
    process_create_user (process_create s img func arg name priority (some base)).0 img entry name'
      priority' (some base') true

-- The two ways to create a process count pids apart. Where the counters agree, as they do at the
-- start, a kernel process and a user process created one after the other are two processes of the
-- table with the same pid.
pub pids_collide :
    (s : Scheduler) (img : Image) (func arg entry : ℕ) (name name' : CString)
    → (priority priority' base base' i j : ℕ) → s.next_pid ≡ s.next_user_pid
    → (process_create s img func arg name priority (some base)).1 ≡ some i
    → (both_created s img func arg entry name name' priority priority' base base').1 ≡ some j
    → let s2 = (both_created s img func arg entry name name' priority priority' base base').0 in
      (i ≢ j) × ((s2.procs i).pid ≡ (s2.procs j).pid)
pids_collide s img func arg entry name name' priority priority' base base' i j same ri rj =
    elim (process_create-Starts s img func arg name priority base) [
      | inr (n, e, _) ↦ absurd (cc)
      | inl (i', ei, made, st) ↦
          elim (process_create_user-Created
            (process_create s img func arg name priority (some base)).0 img entry name' priority'
            base') [
              | inr n ↦ absurd (cc)
              | inl (j', ej, made', kept) ↦ both i' j' (cc) (cc) made made' kept
            ]
    ]
  where
    s1 : Scheduler
    s1 = (process_create s img func arg name priority (some base)).0

    s2 : Scheduler
    s2 = (process_create_user s1 img entry name' priority' (some base') true).0

    both :
        (i' j' : ℕ)
        → i' ≡ i
        → j' ≡ j
        → Created s s1 i' s.next_pid
        → Created s1 s2 j' s1.next_user_pid
        → ((k : ℕ) → j' ≢ k → (s2.procs k).pid ≡ (s1.procs k).pid)
        → (i ≢ j) × ((s2.procs i).pid ≡ (s2.procs j).pid)
    both i' j' ei ej made made' kept =
        let ne : j' ≢ i' = λ e.
          (let w = made'.was_dead in
            let r = made.is_ready_now in
            let q = ap (λ k. is_dead (s1.procs k).state) e in let q' = ap is_dead r in cc) in
        let pid_i = kept i' ne ∙ made.has_pid in
        let pid_j =
          made'.has_pid
          ∙ next_user_pid-process_create s img func arg name priority base
          ∙ sym same in
        (
          (λ e. ne (ej ∙ sym e ∙ sym ei)),
          ap (λ k. (s2.procs k).pid) (sym ei) ∙ pid_i ∙ sym pid_j ∙ ap (λ k. (s2.procs k).pid) ej,
        )
