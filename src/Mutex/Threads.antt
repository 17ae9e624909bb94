-- ===== src/Mutex/Threads.antt =====
-- kernel/mutex.cpp as steps of threads that may be interrupted between any two accesses to the
-- mutex; the two reads of the first test of `mutex_lock` are one step. A thread may call
-- `mutex_lock` and `mutex_trylock` anywhere, also where it has the mutex, and calls `mutex_unlock`
-- once for each lock.
use sabaka_os.Common.{ℕ, ◌+◌, ◌<◌, ◌≡◌, ◌≢◌, ◌⊎◌, Bool, true, false, update}
use sabaka_os.Mutex.{Mutex, no_owner}

-- Where a thread stands: between calls, with `k` locks that it has not undone by `mutex_unlock`; before
-- the exchange of `mutex_trylock`; past a winning `atomic_xchg`; past the first
-- statement of the `mutex_unlock` that leaves it with `k`.
pub data Pc : Type 0 where
  within trying won leaving : (k : ℕ) → Pc

-- Whether a thread with `k` locks may lock: always, or only with none where locks are not nested.
abbrev pub MayLock : Bool → ℕ → Type 0
MayLock true k = Unit {0}
MayLock false k = k ≡ 0

pub data Move (nested : Bool) (pid : ℕ) (m : Mutex) : Pc → Mutex → Pc → Type 0 where
  -- `if (cur && m->locked && m->owner == cur->pid) return;`
  already :
      {k : ℕ}
      → MayLock nested k
      → m.locked ≢ 0
      → m.owner ≡ pid
      → Move nested pid m (within k) m (within (k + 1))
  try :
      {k : ℕ}
      → MayLock nested k
      → (m.locked ≡ 0) ⊎ (m.owner ≢ pid)
      → Move nested pid m (within k) m (trying k)
  -- `mutex_trylock`, which makes no first test
  trylock : {k : ℕ} → MayLock nested k → Move nested pid m (within k) m (trying k)
  -- `old = atomic_xchg(&m->locked, 1)`, after which mutex_lock tries again, or mutex_trylock gives up
  lose : {k : ℕ} → m.locked ≢ 0 → Move nested pid m (trying k) (record m { locked = 1 }) (trying k)
  give_up :
      {k : ℕ} → m.locked ≢ 0 → Move nested pid m (trying k) (record m { locked = 1 }) (within k)
  win : {k : ℕ} → m.locked ≡ 0 → Move nested pid m (trying k) (record m { locked = 1 }) (won k)
  -- `m->owner = cur->pid`
  own : {k : ℕ} → Move nested pid m (won k) (record m { owner = pid }) (within (k + 1))
  -- `m->owner = (uint32_t)-1;` and then `m->locked = 0;`
  disown : {k : ℕ} → Move nested pid m (within (k + 1)) (record m { owner = no_owner }) (leaving k)
  release : {k : ℕ} → Move nested pid m (leaving k) (record m { locked = 0 }) (within k)

pub record System : Type 0 where
  pub mutex : Mutex
  pub pc : ℕ → Pc

-- A move of one of the `n` threads.
pub data Step (nested : Bool) (n : ℕ) (pid : ℕ → ℕ) (s : System) : System → Type 0 where
  thread :
      (i : ℕ) {m : Mutex} {p : Pc}
      → i < n
      → Move nested (pid i) s.mutex (s.pc i) m p
      → Step nested n pid s (record { mutex = m; pc = update s.pc i p })

abbrev pub start_state : System
start_state = record { mutex = record { locked = 0; owner = no_owner }; pc = λ i. within 0 }

pub data Reach (nested : Bool) (n : ℕ) (pid : ℕ → ℕ) : System → Type 0 where
  start : Reach nested n pid start_state
  later : {s t : System} → Reach nested n pid s → Step nested n pid s t → Reach nested n pid t
