-- ===== src/BaseIo/Pipe/Ends.antt =====
-- What `_check_pipe` accepts.
use socketxx.Common.{ℕ, ◌≡◌, ◌↔◌, true, arith}
use socketxx.Common.Outcome.{ok}
use socketxx.BaseIo.Pipe.{Rw, read_end, write_end, check_mode, is_fifo, and_irusr}

-- `_check_pipe` returns only for the writing end of a pipe whose mode bars its owner from reading;
-- no mode at all makes it accept a reading end, since 0400 is never equal to 1.
check_mode_iff :
    (rw_mode : Rw) (mode : ℕ)
    → ((check_mode {S = Unit {0}} rw_mode mode tt).0 ≡ ok tt)
      ↔ ((rw_mode ≡ write_end) × (is_fifo mode ≡ true) × (and_irusr mode ≡ 0))
unfolding check_mode
check_mode_iff read_end mode = (ground arith, ground arith)
check_mode_iff write_end mode = (ground arith, ground arith)
