-- ===== src/Tests/Io.antt =====
-- Descriptors, pipes and sockets.
use socketxx.Common.{◌≡◌, refl, [], ◌∷◌, arith}
use socketxx.Common.Int.{pos}
use socketxx.Common.Outcome.{ok, halts, undefined}
use socketxx.BaseIo.{Timeval, timeout_inf}
use socketxx.BaseIo.Fd
use socketxx.BaseIo.Overrun.{i_fixsize_overruns}
use socketxx.BaseIo.Pipe
use socketxx.BaseIo.Pipe.{read_end, write_end, check_mode, is_fifo, and_irusr, Rw}
use socketxx.BaseIo.Pipe.Exact.{ifix_pipe_exact}
use socketxx.Tests.Fixtures.{Wire, wire, linux, linux_readable, scripted}

-- Three bytes are wanted; one arrives, then three.
i_fixsize_overruns_example :
    (Fd.i_fixsize scripted (pos 3) 3 ((1 ∷ []) ∷ (2 ∷ 3 ∷ 4 ∷ []) ∷ [])).0 ≡ halts undefined
i_fixsize_overruns_example =
    i_fixsize_overruns scripted (pos 3) 3 ((1 ∷ []) ∷ (2 ∷ 3 ∷ 4 ∷ []) ∷ []) ((2 ∷ 3 ∷ 4 ∷ []) ∷ [])
      [] (1 ∷ []) (2 ∷ 3 ∷ 4 ∷ []) refl refl (omega arith) (omega arith) (omega arith) (omega arith)

ifix_pipe_exact_example :
    (s' : Wire) × (Pipe.i_fixsize linux (pos 3) read_end 0 2 timeout_inf (wire (7 ∷ 8 ∷ 9 ∷ []))
      ≡ (ok (7 ∷ 8 ∷ []), s'))
    × (s'.pending ≡ 9 ∷ [])
unfolding linux_readable
ifix_pipe_exact_example =
    ifix_pipe_exact linux (pos 3) (linux_readable (pos 3)) 0 (7 ∷ 8 ∷ []) (9 ∷ [])
      (wire (7 ∷ 8 ∷ 9 ∷ [])) refl

abbrev two_seconds : Timeval
two_seconds = record { sec = pos 2; usec = pos 0 }
