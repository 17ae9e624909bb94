-- ===== src/Scheduler/Create.antt =====
-- kernel/scheduler.cpp, process_create and process_create_user. What `kmalloc` and
-- `paging_alloc_region` answer are arguments, as are the addresses that the linker fixes.
use sabaka_os.Common.{ℕ, ◌+◌, ◌-◌, Option, none, some, Bool, true, false, if◌then◌else◌, update}
use sabaka_os.Common.Words.{add32, mul32}
use sabaka_os.KString.Text.{CString, kstrncpy}
use sabaka_os.Scheduler.State.{dead, ready, Process, Scheduler, proc_stack_size, proc_name_len}
use sabaka_os.Scheduler.{alloc_proc}

-- `(uint32_t)proc_entry` and `(uint32_t)&procs[i]`
pub record Image : Type 0 where
  pub proc_entry : ℕ
  pub proc_addr : ℕ → ℕ

-- Memory, and the stack pointer that `*--sp = v` moves down by a word.
pub record Stack : Type 0 where
  pub mem : ℕ → ℕ
  pub sp : ℕ

unfoldable pub push : Stack → ℕ → Stack
push k v = record { mem = update k.mem (k.sp - 4) v; sp = k.sp - 4 }

-- The nine words of a new stack: three arguments and a return address for `proc_entry`, its
-- address, and four registers.
unfoldable pub initial_stack : Stack → ℕ → ℕ → ℕ → ℕ → Stack
unfolding push
initial_stack k arg func p entry =
    let args = push (push (push (push k arg) func) p) 0 in
    push (push (push (push (push args entry) 0) 0) 0) 0

-- `kstrncpy(p->name, name, PROC_NAME_LEN-1); p->name[PROC_NAME_LEN-1] = 0;`
abbrev pub set_name : (ℕ → ℕ) → CString → (ℕ → ℕ)
set_name old name = update (kstrncpy old 0 name (proc_name_len - 1)) (proc_name_len - 1) 0

abbrev pub put_proc : Scheduler → ℕ → Process → Scheduler
put_proc s i p = record s { procs = update s.procs i p }

abbrev pub new_process : Process → ℕ → ℕ → CString → Process
new_process p pid priority name = record p {
  pid = pid;
  state = ready;
  priority = priority;
  ticks_total = 0;
  ticks_slice = 0;
  sleep_until = 0;
  is_user = false;
  user_entry = 0;
  user_stack_virt = 0;
  name = set_name p.name name;
}

-- `stack` is what `kmalloc(PROC_STACK_SIZE)` returned.
unfoldable pub process_create :
    Scheduler
    → Image
    → (func arg : ℕ) → CString
    → (priority : ℕ) → (stack : Option ℕ) → Scheduler × Option ℕ
process_create s img func arg name priority stack = elim (alloc_proc s.procs) [
  | none ↦ (s, none)
  | some i ↦
      let p = new_process (s.procs i) s.next_pid priority name in
      let s' = record s { next_pid = add32 s.next_pid 1 } in
      elim stack [
        | none ↦ (put_proc s' i (record p { state = dead }), none)
        | some base ↦
            let k =
              initial_stack (record { mem = s.mem; sp = base + proc_stack_size }) arg func
                (img.proc_addr i) img.proc_entry in
            (
              record (put_proc s' i (record p { stack_base = base; esp = k.sp })) {
                mem = k.mem;
                proc_count = add32 s.proc_count 1;
              },
              some i,
            )
      ]
]

abbrev pub user_stack_virt_base : ℕ
user_stack_virt_base = 0x10000000

abbrev pub proc_user_stack_size : ℕ
proc_user_stack_size = 8192

abbrev pub new_user_process : Process → ℕ → ℕ → ℕ → CString → Process
new_user_process p pid entry priority name = record p {
  pid = pid;
  state = ready;
  priority = priority;
  ticks_total = 0;
  ticks_slice = 0;
  sleep_until = 0;
  is_user = true;
  user_entry = entry;
  brk_start = 0x40000000;
  brk_curr = 0x40000000;
  name = set_name p.name name;
}

-- `(uint32_t)ustack_virt`
abbrev pub ustack_virt : ℕ → ℕ
ustack_virt pid = add32 user_stack_virt_base (mul32 pid proc_user_stack_size)

-- `kstack` is what `kmalloc` returned, and `mapped` what `paging_alloc_region` returned for the
-- user stack. On failure of the latter the kernel stack is given back to the heap.
unfoldable pub process_create_user :
    Scheduler
    → Image
    → (entry : ℕ) → CString
    → (priority : ℕ) → (kstack : Option ℕ) → (mapped : Bool) → Scheduler × Option ℕ
process_create_user s img entry name priority kstack mapped = elim (alloc_proc s.procs) [
  | none ↦ (s, none)
  | some i ↦
      let pid = s.next_user_pid in
      let p = new_user_process (s.procs i) pid entry priority name in
      let s' = record s { next_user_pid = add32 s.next_user_pid 1 } in
      elim kstack [
        | none ↦ (put_proc s' i (record p { state = dead }), none)
        | some base ↦
            let k =
              initial_stack (record { mem = s.mem; sp = base + proc_stack_size }) 0 0
                (img.proc_addr i) img.proc_entry in
            if mapped
            then (
              record (put_proc s' i (record p {
                stack_base = base;
                user_stack_virt = add32 (ustack_virt pid) proc_user_stack_size;
                esp = k.sp;
              })) { mem = k.mem; proc_count = add32 s.proc_count 1 },
              some i,
            )
            else (put_proc s' i (record p { state = dead; stack_base = base }), none)
      ]
]
