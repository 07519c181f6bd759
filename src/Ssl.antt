-- ===== src/Ssl.antt =====
-- class base_ssl (socket++/base_ssl.hpp, socket++/base_ssl.cpp): sockets that can be switched to
-- SSL and back. OpenSSL is a parameter.
pub mod Session
pub mod Traffic
pub mod Reach
pub mod Exact
pub mod Stream
pub mod Described
pub mod Library
use socketxx.Common.{
  ℕ, zero, suc, ◌-◌, ◌==◌, ◌⊎◌, inl, inr, Bool, true, false, not, Option, none, some, List, ◌++◌,
  length, ltb, if◌then◌else◌,
}
use socketxx.Common.Int.{ℤ, pos, minus_one, ltb_ℤ, int_of}
use socketxx.Common.Outcome.{
  Exec, Outcome, ok, throws, halts, reading, writing, logic_error, ssl_error, io_ssl_error,
  ssl_start, ssl_stop, no_fuel, undefined, pure, halt, ◌>>=◌, ◌>>◌,
}
use socketxx.BaseIo.{Os}
use socketxx.BaseIo.Socket

-- The method of a session: TLS_client_method() or TLS_server_method().
pub data Method : Type 0 where
  client server : Method

-- The calls of OpenSSL, on the system that has the sockets. An SSL_CTX or SSL is a number;
-- `none` is NULL. A read or write is given its length as an `int`: a read gives the bytes that
-- it stored, or a result below 1; a write gives its result. `clear` is ERR_clear_error() with errno = 0.
pub record OpenSsl : Type 1 where
  pub os : Os
  pub ctx_new : Method → os.World → Option ℕ × os.World
  pub ssl_new : ℕ → os.World → Option ℕ × os.World
  pub set_fd : ℕ → ℤ → os.World → Bool × os.World
  pub handshake : Method → ℕ → os.World → ℤ × os.World
  pub shutdown : ℕ → os.World → ℤ × os.World
  pub ssl_free : ℕ → os.World → os.World
  pub ctx_free : Option ℕ → os.World → os.World
  pub write : ℕ → List ℕ → ℤ → os.World → ℤ × os.World
  pub read : ℕ → ℤ → os.World → (ℤ ⊎ List ℕ) × os.World
  pub clear : os.World → os.World

-- The members of a base_ssl, and the world.
pub record SslSocket (W : Type 0) : Type 0 where
  pub fd : ℤ
  pub ssl_sock : Option ℕ
  pub ssl_ctx : Option ℕ
  pub world : W

-- r <= 0
abbrev pub not_positive : ℤ → Bool
not_positive r = ltb_ℤ r (pos 1)

module _ (l : OpenSsl) where
  abbrev pub M : Type 0 → Type 0
  M A = Exec (SslSocket l.os.World) A

  -- throw ssl_error(t): without a session, and with -1.
  fail_start : SslSocket l.os.World → Outcome (Unit {0}) × SslSocket l.os.World
  fail_start s = (throws (ssl_error ssl_start none minus_one (l.os.errno s.world)), s)

  fd_set : Bool × l.os.World → SslSocket l.os.World → Outcome (Unit {0}) × SslSocket l.os.World
  unfolding fail_start
  fd_set (true, w) s = (ok tt, record s { world = w })
  fd_set (false, w) s = fail_start (record s { world = w })

  ssl_made :
      Option ℕ × l.os.World → SslSocket l.os.World → Outcome (Unit {0}) × SslSocket l.os.World
  unfolding fail_start fd_set
  ssl_made (none, w) s = fail_start (record s { ssl_sock = none; world = w })
  ssl_made (some k, w) s = fd_set (l.set_fd k s.fd w) (record s { ssl_sock = some k })

  ctx_made :
      Option ℕ × l.os.World → SslSocket l.os.World → Outcome (Unit {0}) × SslSocket l.os.World
  unfolding fail_start ssl_made
  ctx_made (none, w) s = fail_start (record s { ssl_ctx = none; world = w })
  ctx_made (some c, w) s = ssl_made (l.ssl_new c w) (record s { ssl_ctx = some c })

  -- new_ssl_socket
  unfoldable pub new_ssl_socket : Method → M (Unit {0})
  unfolding ctx_made
  new_ssl_socket m s = ctx_made (l.ctx_new m s.world) s

  shaken : ℤ × l.os.World → SslSocket l.os.World → Outcome (Unit {0}) × SslSocket l.os.World
  unfolding fail_start
  shaken (r, w) s =
      let s' = record s { world = w } in if not_positive r then fail_start s' else (ok tt, s')

  shake : Method → Option ℕ → M (Unit {0})
  unfolding shaken
  shake m none s = (halts undefined, s)
  shake m (some k) s = shaken (l.handshake m k s.world) s

  unfoldable pub begin_session : Method → M (Unit {0})
  unfolding new_ssl_socket shake
  begin_session m = new_ssl_socket m >> λ s. shake m s.ssl_sock s

  -- start_ssl and wait_for_ssl
  unfoldable pub start_ssl : M (Unit {0})
  unfolding begin_session
  start_ssl = begin_session client

  unfoldable pub wait_for_ssl : M (Unit {0})
  unfolding begin_session
  wait_for_ssl = begin_session server

  shut : ℕ → ℤ × l.os.World → SslSocket l.os.World → Outcome (Unit {0}) × SslSocket l.os.World
  shut k (r, w) s =
      if not_positive r
      then (throws (ssl_error ssl_stop none minus_one (l.os.errno w)), record s { world = w })
      else (
        ok tt,
        record s { ssl_sock = none; ssl_ctx = none; world = l.ctx_free s.ssl_ctx (l.ssl_free k w) },
      )

  stop_session : Option ℕ → M (Unit {0})
  unfolding shut
  stop_session none s = (throws (logic_error "can't stop SSL : SSL not started"), s)
  stop_session (some k) s = shut k (l.shutdown k s.world) s

  -- stop_ssl
  unfoldable pub stop_ssl : M (Unit {0})
  unfolding stop_session
  stop_ssl s = stop_session s.ssl_sock s

  stop_if_started : Option ℕ → SslSocket l.os.World → SslSocket l.os.World
  unfolding stop_ssl
  stop_if_started none s = s
  stop_if_started (some k) s = (stop_ssl s).1

  -- The body of ~base_ssl, on the last object of the socket: what stop_ssl throws is dropped.
  unfoldable pub destroy_ssl : SslSocket l.os.World → SslSocket l.os.World
  unfolding stop_if_started
  destroy_ssl s = stop_if_started s.ssl_sock s

  written : ℕ → ℤ → ℤ × l.os.World → Outcome (Unit {0}) × l.os.World
  written k len (ret, w) =
      if ltb_ℤ ret len
      then (throws (io_ssl_error writing k ret (l.os.errno w)), w)
      else (ok tt, l.clear w)

  -- _o_ssl
  unfoldable pub o_ssl : ℕ → List ℕ → Exec l.os.World (Unit {0})
  unfolding written
  o_ssl k d w = let len = int_of (length d) in written k len (l.write k d len w)

  got : ℕ → (ℤ ⊎ List ℕ) × l.os.World → Outcome (List ℕ) × l.os.World
  got k (inl ret, w) = (throws (io_ssl_error reading k ret (l.os.errno w)), w)
  got k (inr bs, w) =
      if ltb (length bs) 1
      then (throws (io_ssl_error reading k (pos (length bs)) (l.os.errno w)), w)
      else (ok bs, l.clear w)

  -- _i_ssl
  unfoldable pub i_ssl : ℕ → ℕ → Exec l.os.World (List ℕ)
  unfolding got
  i_ssl k maxlen w = got k (l.read k (int_of maxlen) w)

  -- The loop of _i_fixsize_ssl: it asks for `len` bytes each time. What is stored past the end of
  -- the buffer is undefined behaviour.
  more_ssl : ℕ → ℕ → ℕ → ℕ → List ℕ → Exec l.os.World (List ℕ)
  unfolding i_ssl
  more_ssl zero k len rest filled = halt no_fuel
  more_ssl (suc fuel) k len rest filled =
      let next = i_ssl k len >>= λ bs.
      let on = more_ssl fuel k len (rest - length bs) (filled ++ bs) in
      if ltb rest (length bs) then halt undefined else on in
      if rest == 0 then pure filled else next

  -- _i_fixsize_ssl: each read gives one byte at least.
  unfoldable pub i_fixsize_ssl : ℕ → ℕ → Exec l.os.World (List ℕ)
  unfolding i_ssl more_ssl
  i_fixsize_ssl k len = i_ssl k len >>= λ bs.
      if ltb (length bs) len then more_ssl (suc len) k len (len - length bs) bs else pure bs

  in_world :
      {A : Type 0}
      → Outcome A × l.os.World
      → SslSocket l.os.World
      → Outcome A × SslSocket l.os.World
  in_world (r, w) s = (r, record s { world = w })

  unfoldable pub by_session :
      {A : Type 0} → Option ℕ → Exec l.os.World A → (ℕ → Exec l.os.World A) → M A
  unfolding in_world
  by_session none plain ssl s = in_world (plain s.world) s
  by_session (some k) plain ssl s = in_world (ssl k s.world) s

  -- base_ssl::_o, _i and _i_fixsize
  unfoldable pub o : List ℕ → M (Unit {0})
  unfolding by_session
  o d s = by_session s.ssl_sock (Socket.o l.os s.fd d) (λ k. o_ssl k d) s

  -- With a session the flags are dropped.
  unfoldable pub o_flags : List ℕ → ℕ → M (Unit {0})
  unfolding by_session
  o_flags d flags s = by_session s.ssl_sock (Socket.o_flags l.os s.fd d flags) (λ k. o_ssl k d) s

  unfoldable pub i : ℕ → M (List ℕ)
  unfolding by_session
  i maxlen s = by_session s.ssl_sock (Socket.i l.os s.fd maxlen) (λ k. i_ssl k maxlen) s

  unfoldable pub i_fixsize : ℕ → M (List ℕ)
  unfolding by_session
  i_fixsize len s =
      by_session s.ssl_sock (Socket.i_fixsize l.os s.fd len) (λ k. i_fixsize_ssl k len) s
