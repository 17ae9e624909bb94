-- ===== src/Pipe/Tests.antt =====
-- Examples for the pipes of kernel/pipe.cpp.
use sabaka_os.Common.{ℕ, ◌+◌, ◌-◌, ◌≡◌, refl, arith, false, some, ◌++◌, ◌==◌, if◌then◌else◌, slice}
use sabaka_os.Common.Int.{pos}
use sabaka_os.Pipe.{Pipes, pipe_write}
use sabaka_os.Pipe.Chunk.{contents}
use sabaka_os.Pipe.Transfer.{IsOpen, pipe_write_room, Drains, pipe_write_returns}

-- Pipe 2 is open and holds `n` bytes from the last place of its buffer on; the others are free.
abbrev holding : ℕ → Pipes
holding n i = record {
  buf = λ k. k;
  read_pos = 1023;
  write_pos = if n == 0 then 1023 else if n == 1024 then 1023 else n + 1023 - 1024;
  count = n;
  used = i == 2;
  write_closed = false;
}

two-IsOpen : IsOpen (holding 2) 2
two-IsOpen = record {
  in_range = omega arith;
  is_used = refl;
  valid = record { read_in = omega arith; count_in = omega arith; write_at = refl };
}

full-IsOpen : IsOpen (holding 1024) 2
full-IsOpen = record {
  in_range = omega arith;
  is_used = refl;
  valid = record { read_in = omega arith; count_in = omega arith; write_at = refl };
}

-- The reader takes all but two bytes.
abbrev reader : Pipes → Pipes
reader ps = holding 2

reader-Drains : Drains reader 2
reader-Drains ps o = (two-IsOpen, omega arith)

pipe_write_returns_example :
    (ps' : Pipes) × (pipe_write reader 8 (holding 1024) (pos 2) (λ k. k) 3 ≡ some (ps', pos 3))
    × IsOpen ps' 2
pipe_write_returns_example =
    pipe_write_returns reader 8 (holding 1024) 2 (λ k. k) 3 reader-Drains full-IsOpen (omega arith)
      (omega arith)

pipe_write_room_example :
    (ps' : Pipes) × (pipe_write reader 2 (holding 2) (pos 2) (λ k. k) 3 ≡ some (ps', pos 3))
    × (contents (ps' 2) ≡ contents (holding 2 2) ++ slice (λ k. k) 0 3)
    × IsOpen ps' 2
pipe_write_room_example = pipe_write_room reader 0 (holding 2) 2 (λ k. k) 3 two-IsOpen (omega arith)
