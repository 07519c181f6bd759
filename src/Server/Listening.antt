-- ===== src/Server/Listening.antt =====
-- Starting and stopping to listen.
use socketxx.Common.{ℕ, ◌≡◌, ◌≢◌, ◌↔◌, Bool, true, false, inl, inr, arith, Bool-cases}
use socketxx.Common.Int.{minus_one, eqb}
use socketxx.Common.Outcome.{ok}
use socketxx.BaseIo.Socket.Timeout.{eqb_sound}
use socketxx.BaseIo.Lifetime.{socket_close}
use socketxx.Server.{ServerOs, Server, listening_start, listening_stop}

-- No call succeeds on the descriptor -1.
pub record RefusesInvalid (os : ServerOs) : Type 0 where
  pub bind_invalid : (w : os.World) → (os.bind minus_one w).0 ≡ false
  pub reuse_invalid : (w : os.World) → (os.set_reuseaddr minus_one w).0 ≡ false

module _ (os : ServerOs) where
  -- A server that was not listening listens afterwards exactly if the launch did not fail.
  listening_start_iff :
      (listen_max : ℕ) (reuse : Bool) (s : Server os.World)
      → s.listening ≡ false
      → ((listening_start os listen_max reuse s).1.listening ≡ true)
        ↔ ((listening_start os listen_max reuse s).0 ≡ ok tt)
  unfolding listening_start
  listening_start_iff listen_max reuse s h = (ground arith, ground arith)

  invalid_start :
      (κ : RefusesInvalid os) (listen_max : ℕ) (reuse : Bool) (s : Server os.World)
      → s.handle.fd ≡ minus_one
      → (listening_start os listen_max reuse s).0 ≢ ok tt
  unfolding listening_start
  invalid_start κ listen_max reuse s h = ground (
    arith,
    κ.bind_invalid s.world,
    κ.bind_invalid (os.set_reuseaddr s.handle.fd s.world).1,
    κ.reuse_invalid s.world,
  )

  stop_closes :
      (s : Server os.World)
      → s.listening ≡ true
      → s.handle.autoclose ≡ true
      → (listening_stop os s).1.handle.fd ≡ minus_one
  unfolding listening_stop socket_close
  stop_closes s h a = elim (Bool-cases (eqb s.handle.fd minus_one)) [
    | inl gone ↦ rw h (rw a (rw gone (eqb_sound s.handle.fd minus_one gone)))
    | inr open_fd ↦ rw h (rw a (rw open_fd))
  ]

  -- Where the system refuses the descriptor -1, a server that closes its descriptor by itself
  -- and stopped to listen cannot start again.
  pub restart_fails :
      (κ : RefusesInvalid os) (listen_max : ℕ) (reuse : Bool) (s : Server os.World)
      → s.listening ≡ true
      → s.handle.autoclose ≡ true
      → (listening_start os listen_max reuse (listening_stop os s).1).0 ≢ ok tt
  restart_fails κ listen_max reuse s h a =
      invalid_start κ listen_max reuse (listening_stop os s).1 (stop_closes s h a)
