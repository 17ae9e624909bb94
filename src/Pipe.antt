-- ===== src/Pipe.antt =====
-- kernel/pipe.h and kernel/pipe.cpp: the kernel's pipes. The parts between `cli` and `sti` are one
-- step each; across a `scheduler_yield` other processes may do anything to the table, which is the
-- parameter `others`. A loop that waits takes fuel, and `none` says that it is still waiting. That an
-- interrupt may come between the test of the count and `cli` is not modelled.
pub mod Chunk
pub mod Transfer
pub mod Read
mod Tests
use sabaka_os.Common.{
  ℕ, zero, suc, ◌+◌, ◌-◌, List, [], Option, none, some, Bool, true, false, ◌&&◌, ◌||◌, not, ltb,
  leb, ◌==◌, if◌then◌else◌, update, find_index, for_range,
}
use sabaka_os.Common.Int.{as_int, ℤ, pos, negsuc, minus_one}
use sabaka_os.Common.Words.{add32, sub32}
use sabaka_os.Common.Ring.{put_loop, get_loop}

abbrev pub pipe_buf_size : ℕ
pipe_buf_size = 1024

abbrev pub pipe_max : ℕ
pipe_max = 8

pub record Pipe : Type 0 where
  pub buf : ℕ → ℕ
  pub read_pos : ℕ
  pub write_pos : ℕ
  pub count : ℕ
  pub used : Bool
  pub write_closed : Bool

abbrev pub Pipes : Type 0
Pipes = ℕ → Pipe

-- The fields that `pipe_init_all` and `pipe_create` set, with `used` as given.
abbrev pub reset : Pipe → Bool → Pipe
reset p used = record p {
  used = used;
  read_pos = 0;
  write_pos = 0;
  count = 0;
  write_closed = false;
}

unfoldable pub pipe_init_all : Pipes → Pipes
pipe_init_all ps = for_range 0 pipe_max (λ i ps'. update ps' i (reset (ps' i) false)) ps

unfoldable pub pipe_create : Pipes → Pipes × ℤ
pipe_create ps = elim (find_index (λ i. not (ps i).used) 0 pipe_max) [
  | none ↦ (ps, minus_one)
  | some i ↦ (update ps i (reset (ps i) true), pos i)
]

-- `id >= 0 && id < PIPE_MAX`
abbrev pub pipe_index : ℤ → Option ℕ
pipe_index (negsuc k) = none
pipe_index (pos i) = if ltb i pipe_max then some i else none

unfoldable pub pipe_destroy : Pipes → ℤ → Pipes
pipe_destroy ps id = elim (pipe_index id) [
  | none ↦ ps
  | some i ↦ update ps i (record (ps i) { used = false })
]

unfoldable pub pipe_close_write : Pipes → ℤ → Pipes
pipe_close_write ps id = elim (pipe_index id) [
  | none ↦ ps
  | some i ↦ if (ps i).used then update ps i (record (ps i) { write_closed = true }) else ps
]

unfoldable pub pipe_empty : Pipes → ℤ → Bool
pipe_empty ps id = elim (pipe_index id) [
  | none ↦ true
  | some i ↦ if not (ps i).used then true else (ps i).count == 0
]

-- How many bytes the next critical section of `pipe_write` takes.
abbrev pub chunk_size : Pipe → ℕ → ℕ → ℕ
chunk_size p len written =
    if ltb (sub32 pipe_buf_size p.count) (sub32 len written)
    then sub32 pipe_buf_size p.count
    else sub32 len written

-- The critical section of `pipe_write`, which moves `n` bytes of `bytes` from `written` on.
unfoldable pub write_chunk : Pipe → (ℕ → ℕ) → ℕ → ℕ → Pipe
write_chunk p bytes written n =
    let (buf', write_pos') = put_loop pipe_buf_size p.buf p.write_pos bytes written n in
    record p { buf = buf'; write_pos = write_pos'; count = add32 p.count n }

unfoldable pub write_loop :
    (others : Pipes → Pipes) (i : ℕ) (bytes : ℕ → ℕ) (len : ℕ)
    → (fuel : ℕ) → Pipes
    → (written : ℕ) → Option (Pipes × ℤ)
write_loop others i bytes len zero ps written = none
write_loop others i bytes len (suc fuel) ps written =
    let n = chunk_size (ps i) len written in
    let wait = write_loop others i bytes len fuel (others ps) written in
    let more =
      write_loop others i bytes len fuel (update ps i (write_chunk (ps i) bytes written n))
        (add32 written n) in
    if ltb written len
    then (if leb pipe_buf_size (ps i).count then wait else more)
    else some (ps, as_int written)

unfoldable pub pipe_write :
    (others : Pipes → Pipes) → ℕ → Pipes → ℤ → (ℕ → ℕ) → ℕ → Option (Pipes × ℤ)
pipe_write others fuel ps id bytes len = elim (pipe_index id) [
  | none ↦ some (ps, minus_one)
  | some i ↦
      if not (ps i).used then some (ps, minus_one) else write_loop others i bytes len fuel ps 0
]

-- `p.count < len ? p.count : len`
abbrev pub available : Pipe → ℕ → ℕ
available p len = if ltb p.count len then p.count else len

-- The critical section of the two reads: the bytes that it moves to the caller's buffer.
unfoldable pub read_chunk : Pipe → ℕ → Pipe × List ℕ
read_chunk p len =
    let n = available p len in
    let (out, read_pos') = get_loop pipe_buf_size p.buf p.read_pos n in
    (record p { read_pos = read_pos'; count = sub32 p.count n }, out)

-- What the reads do once they need not wait: bytes moved, and the number returned.
unfoldable pub finish_read : Pipes → ℕ → ℕ → Pipes × List ℕ × ℤ
finish_read ps i len =
    let (p, out) = read_chunk (ps i) len in
    if (ps i).count == 0 then (ps, [], pos 0) else (update ps i p, out, pos (available (ps i) len))

unfoldable pub read_loop :
    (others : Pipes → Pipes) (i len : ℕ) → ℕ → Pipes → Option (Pipes × List ℕ × ℤ)
read_loop others i len zero ps = none
read_loop others i len (suc fuel) ps =
    let wait = read_loop others i len fuel (others ps) in
    if (ps i).count == 0 && not (ps i).write_closed then wait else some (finish_read ps i len)

unfoldable pub pipe_read :
    (others : Pipes → Pipes) → ℕ → Pipes → ℤ → ℕ → Option (Pipes × List ℕ × ℤ)
pipe_read others fuel ps id len = elim (pipe_index id) [
  | none ↦ some (ps, [], minus_one)
  | some i ↦ if not (ps i).used then some (ps, [], minus_one) else read_loop others i len fuel ps
]

unfoldable pub pipe_read_nb : Pipes → ℤ → ℕ → Pipes × List ℕ × ℤ
pipe_read_nb ps id len = elim (pipe_index id) [
  | none ↦ (ps, [], minus_one)
  | some i ↦ if not (ps i).used then (ps, [], minus_one) else finish_read ps i len
]
