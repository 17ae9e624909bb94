-- ===== src/Pipe/Read.antt =====
-- kernel/pipe.cpp: whole calls of pipe_read and pipe_read_nb.
use sabaka_os.Common.{
  ℕ, suc, ◌<◌, ◌≡◌, ◌⊎◌, List, ◌++◌, ◌&&◌, true, false, not, ◌==◌, arith, length, some, lt→ltb,
}
use sabaka_os.Common.Int.{ℤ, pos}
use sabaka_os.Pipe.{Pipes, pipe_max, available, finish_read, read_loop, pipe_read, pipe_read_nb}
use sabaka_os.Pipe.Chunk.{contents}
use sabaka_os.Pipe.Transfer.{IsOpen}

pipe_read_nb-finish :
    (ps : Pipes) (i len : ℕ) → IsOpen ps i → pipe_read_nb ps (pos i) len ≡ finish_read ps i len
unfolding pipe_read_nb
pipe_read_nb-finish ps i len o = rw (lt→ltb i pipe_max o.in_range, pipe_read_nb) (rw o.is_used)

-- What a read of an open pipe has done: `out` are the oldest bytes, as many as the pipe holds up
-- to `len`, the rest waits on in order, and the number of bytes is returned.
pub record Took (ps : Pipes) (i len : ℕ) (ps' : Pipes) (out : List ℕ) (r : ℤ) : Type 0 where
  pub oldest : contents (ps i) ≡ out ++ contents (ps' i)
  pub number : length out ≡ available (ps i) len
  pub returned : r ≡ pos (length out)
  pub still_open : IsOpen ps' i

-- `pipe_read` does not wait where bytes are there or the writer has closed the pipe: it does and
-- returns what `pipe_read_nb` does.
pub pipe_read-pipe_read_nb :
    (others : Pipes → Pipes) (fuel : ℕ) (ps : Pipes) (i len : ℕ)
    → IsOpen ps i
    → (0 < (ps i).count) ⊎ ((ps i).write_closed ≡ true)
    → pipe_read others (suc fuel) ps (pos i) len ≡ some (pipe_read_nb ps (pos i) len)
unfolding pipe_read read_loop
pipe_read-pipe_read_nb others fuel ps i len o ready =
    let e : ((ps i).count == 0 && not (ps i).write_closed) ≡ false = ground arith in
    rw (lt→ltb i pipe_max o.in_range, pipe_read, pipe_read_nb-finish ps i len o)
      (rw o.is_used (rw e))
