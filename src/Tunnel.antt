-- ===== src/Tunnel.antt =====
-- Tunnels between two descriptors (socket++/io/tunnel.cpp, socket++/io/tunnel.hpp). Both ends are
-- in one world; select() and the intercepting callback are parameters.
pub mod Flow
pub mod Relay
pub mod Ends
use socketxx.Common.{
  ℕ, zero, suc, ◌==◌, Bool, true, false, Option, none, some, List, [], ◌∷◌, take, ltb,
  if◌then◌else◌,
}
use socketxx.Common.Int.{ℤ, pos, eqb, ltb_ℤ, succ}
use socketxx.Common.Outcome.{
  Exception, Exec, Outcome, ok, throws, halts, io_error, io_ssl_error, other_error, timeout_event,
  no_fuel, pure, throw, ◌>>=◌, ◌>>◌,
}
use socketxx.BaseIo.{Timeval, timeval_eq, timeout_inf}
use socketxx.BaseIo.Pipe.{eintr}
use socketxx.Server.{is_set}

-- One end: its descriptor and the virtual methods that _get_io_fncts gives.
pub record Side (W : Type 0) : Type 0 where
  pub fd : ℤ
  pub i : ℕ → Exec W (List ℕ)
  pub o : List ℕ → Exec W (Unit {0})

-- What the callback leaves: the bytes in the internal buffer, those behind the pointer, and `len`.
pub record Intercepted : Type 0 where
  pub internal : List ℕ
  pub given : List ℕ
  pub len : ℕ

-- The callback: it is told the direction, what was read and the size of the buffer. `none` is NULL.
abbrev pub Callback : Type 0 → Type 0
Callback W = Option (Bool → List ℕ → ℕ → Exec W Intercepted)

-- select() as the server has it: the descriptors that are ready, none of them when the time is
-- over.
pub record Wiring (W : Type 0) : Type 0 where
  pub errno : W → ℕ
  pub select : ℤ → List ℤ → Option Timeval → W → Option (List ℤ) × W

-- io_error::is_connection_closed, which io_ssl_error inherits; no other exception has it.
unfoldable pub is_connection_closed : Exception → Bool
is_connection_closed (io_error ret t e) = eqb ret (pos 0)
is_connection_closed (io_ssl_error t k ret e) = eqb ret (pos 0)
is_connection_closed _ = false

-- What is to be written, and the size of the buffer from then on.
replaced : ℕ → Intercepted → List ℕ × ℕ
replaced sz r = if ltb sz r.len then (take r.len r.given, r.len) else (take r.len r.internal, sz)

intercept : {W : Type 0} → Callback W → Bool → ℕ → List ℕ → Exec W (List ℕ × ℕ)
unfolding replaced
intercept none dir sz bs = pure (bs, sz)
intercept (some g) dir sz bs = g dir bs sz >>= λ r. pure (replaced sz r)

module _ {W : Type 0} (f : Callback W) where
  -- One direction of a round.
  relay : Bool → Side W → Side W → ℕ → Exec W ℕ
  unfolding intercept
  relay dir source target sz =
      source.i sz >>= λ bs. intercept f dir sz bs >>= λ out. target.o out.0 >> pure out.1

  relay_if : Bool → Bool → Side W → Side W → ℕ → Exec W ℕ
  unfolding relay
  relay_if ready dir source target sz = if ready then relay dir source target sz else pure sz

  -- The body of the try block.
  copy_round : Side W → Side W → List ℤ → ℕ → Exec W ℕ
  unfolding relay_if
  copy_round s1 s2 ready sz = relay_if (is_set s1.fd ready) true s1 s2 sz >>= λ sz'.
      relay_if (is_set s2.fd ready) false s2 s1 sz'

-- Its handler, and the next round.
caught : {W : Type 0} → (ℕ → Exec W (Unit {0})) → Outcome ℕ × W → Outcome (Unit {0}) × W
caught again (ok sz, w) = again sz w
caught again (throws e, w) = if is_connection_closed e then (ok tt, w) else (throws e, w)
caught again (halts h, w) = (halts h, w)

module _ {W : Type 0} (x : Wiring W) (f : Callback W) (s1 s2 : Side W) where
  answered : (ℕ → Exec W (Unit {0})) → ℕ → Option (List ℤ) × W → Outcome (Unit {0}) × W
  unfolding caught copy_round
  answered again sz (none, w) =
      let next = again sz w in
      if x.errno w == eintr
      then next
      else (throws (other_error "select() error while tunneling" (x.errno w)), w)
  answered again sz (some [], w) = (throws timeout_event, w)
  answered again sz (some (fd ∷ fds), w) = caught again (copy_round f s1 s2 (fd ∷ fds) sz w)

  -- `fuel` bounds how often select() is called.
  copy_loop : ℕ → Timeval → ℕ → Exec W (Unit {0})
  unfolding answered
  copy_loop zero timeout sz w = (halts no_fuel, w)
  copy_loop (suc fuel) timeout sz w =
      let maxfd = if ltb_ℤ s2.fd s1.fd then succ s1.fd else succ s2.fd in
      let limit = if timeval_eq timeout timeout_inf then none else some timeout in
      answered (copy_loop fuel timeout) sz (x.select maxfd (s1.fd ∷ s2.fd ∷ []) limit w)

  -- do_copy_tunneling, with getpagesize()
  unfoldable pub do_copy_tunneling : ℕ → ℕ → Timeval → Exec W (Unit {0})
  unfolding copy_loop
  do_copy_tunneling fuel page timeout = copy_loop fuel timeout page

module _ {W : Type 0} (x : Wiring W) (this other : Side W) where
  -- start_tunneling, with the read timeout of this end; and with a callback
  unfoldable pub start_tunneling : ℕ → ℕ → Exec W Timeval → Exec W (Unit {0})
  start_tunneling fuel page get_read_timeout =
      get_read_timeout >>= do_copy_tunneling x none this other fuel page

  unfoldable pub start_tunneling_with :
      (Bool → List ℕ → ℕ → Exec W Intercepted) → ℕ → ℕ → Exec W Timeval → Exec W (Unit {0})
  start_tunneling_with callback fuel page get_read_timeout =
      get_read_timeout >>= do_copy_tunneling x (some callback) this other fuel page
