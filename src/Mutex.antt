-- ===== src/Mutex.antt =====
-- kernel/mutex.h and kernel/mutex.cpp: mutexes and semaphores. `pid` is `scheduler_current()->pid`,
-- which is never null; across a `scheduler_yield` the other processes act, which is `others`.
pub mod Threads
pub mod Exclusion
pub mod Lock
mod Tests
use sabaka_os.Common.{
  ℕ, zero, suc, ◌+◌, ◌-◌, Option, none, some, Bool, true, false, ◌&&◌, not, ltb, ◌==◌,
  if◌then◌else◌,
}

-- `(uint32_t)-1`
abbrev pub no_owner : ℕ
no_owner = 4294967295

pub record Mutex : Type 0 where
  pub locked : ℕ
  pub owner : ℕ

unfoldable pub mutex_init : Mutex → Mutex
mutex_init m = record { locked = 0; owner = no_owner }

-- `atomic_xchg(&m->locked, val)`: the new mutex and the old value.
unfoldable pub atomic_xchg : Mutex → ℕ → Mutex × ℕ
atomic_xchg m val = (record m { locked = val }, m.locked)

unfoldable pub mutex_trylock : Mutex → ℕ → Mutex × Bool
unfolding atomic_xchg
mutex_trylock m pid =
    let (m', old) = atomic_xchg m 1 in
    if old == 0 then (record m' { owner = pid }, true) else (m', false)

-- `while (!mutex_trylock(m)) scheduler_yield();`. `none`: still waiting when the fuel is out.
unfoldable pub lock_loop : (Mutex → Mutex) → ℕ → ℕ → Mutex → Option Mutex
lock_loop others pid zero m = none
lock_loop others pid (suc fuel) m =
    let (m', won) = mutex_trylock m pid in
    let again = lock_loop others pid fuel (others m') in if won then some m' else again

unfoldable pub mutex_lock : (Mutex → Mutex) → ℕ → ℕ → Mutex → Option Mutex
mutex_lock others pid fuel m =
    if not (m.locked == 0) && m.owner == pid then some m else lock_loop others pid fuel m

unfoldable pub mutex_unlock : Mutex → Mutex
mutex_unlock m = record { locked = 0; owner = no_owner }

-- The source's `int count` is used from 0 up.
pub record Semaphore : Type 0 where
  pub count : ℕ
  pub max : ℕ

unfoldable pub sem_init : Semaphore → ℕ → ℕ → Semaphore
sem_init s initial max = record { count = initial; max = max }

unfoldable pub sem_wait : (Semaphore → Semaphore) → ℕ → Semaphore → Option Semaphore
sem_wait others zero s = none
sem_wait others (suc fuel) s =
    let again = sem_wait others fuel (others s) in
    if ltb 0 s.count then some (record s { count = s.count - 1 }) else again

unfoldable pub sem_signal : Semaphore → Semaphore
sem_signal s = if ltb s.count s.max then record s { count = s.count + 1 } else s

unfoldable pub sem_value : Semaphore → ℕ
sem_value s = s.count
