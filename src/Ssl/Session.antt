-- ===== src/Ssl/Session.antt =====
-- How many SSL objects a socket holds while it is used.
use socketxx.Common.{
  ℕ, ◌+◌, ◌<◌, ◌≡◌, ◌∙◌, refl, sym, ap, Bool, true, false, Option, none, some, List, arith, inl,
  inr, Bool-cases,
}
use socketxx.Common.Int.{ℤ}
use socketxx.Common.Outcome.{Outcome, ok, throws, halts, resume}
use socketxx.Ssl.{
  OpenSsl, SslSocket, Method, not_positive, stop_ssl, begin_session, new_ssl_socket, ctx_made,
  ssl_made, fd_set, fail_start, shake, shaken, stop_session, shut,
}

abbrev pub count : Option ℕ → ℕ
count none = 0
count (some k) = 1

-- SSL_new adds an object if it gives one, SSL_free takes one away, and no other call changes how
-- many there are.
pub record CountsSessions (l : OpenSsl) : Type 0 where
  pub live : l.os.World → ℕ
  pub ctx_new_live : (m : Method) (w : l.os.World) → live (l.ctx_new m w).1 ≡ live w
  pub ssl_new_live :
      (c : ℕ) (w : l.os.World) → live (l.ssl_new c w).1 ≡ live w + count (l.ssl_new c w).0
  pub set_fd_live : (k : ℕ) (fd : ℤ) (w : l.os.World) → live (l.set_fd k fd w).1 ≡ live w
  pub handshake_live : (m : Method) (k : ℕ) (w : l.os.World) → live (l.handshake m k w).1 ≡ live w
  pub shutdown_live : (k : ℕ) (w : l.os.World) → live (l.shutdown k w).1 ≡ live w
  pub ssl_free_live : (k : ℕ) (w : l.os.World) → 0 < live w → live (l.ssl_free k w) + 1 ≡ live w
  pub ctx_free_live : (c : Option ℕ) (w : l.os.World) → live (l.ctx_free c w) ≡ live w
  pub write_live :
      (k : ℕ) (bs : List ℕ) (n : ℤ) (w : l.os.World) → live (l.write k bs n w).1 ≡ live w
  pub read_live : (k : ℕ) (n : ℤ) (w : l.os.World) → live (l.read k n w).1 ≡ live w
  pub clear_live : (w : l.os.World) → live (l.clear w) ≡ live w
  pub send_live :
      (fd : ℤ) (bs : List ℕ) (flags : ℕ) (w : l.os.World)
      → live (l.os.send fd bs flags w).1 ≡ live w
  pub recv_live : (fd : ℤ) (n flags : ℕ) (w : l.os.World) → live (l.os.recv fd n flags w).1 ≡ live w

module _ {l : OpenSsl} (κ : CountsSessions l) where
  -- There is a session exactly if the pointer is not NULL, and no other.
  abbrev pub Held : SslSocket l.os.World → Type 0
  Held s = κ.live s.world ≡ count s.ssl_sock

  fd_set-Held :
      (r : Bool) (w : l.os.World) (s : SslSocket l.os.World)
      → κ.live w ≡ count s.ssl_sock
      → Held (fd_set l (r, w) s).1
  unfolding fd_set fail_start
  fd_set-Held true w s h = h
  fd_set-Held false w s h = h

  ssl_made-Held :
      (r : Option ℕ) (w : l.os.World) (s : SslSocket l.os.World)
      → κ.live w ≡ count r
      → Held (ssl_made l (r, w) s).1
  unfolding ssl_made fail_start
  ssl_made-Held none w s h = h
  ssl_made-Held (some k) w s h =
      let made = l.set_fd k s.fd w in
      fd_set-Held made.0 made.1 (record s { ssl_sock = some k }) (κ.set_fd_live k s.fd w ∙ h)

  ctx_made-Held :
      (r : Option ℕ) (w : l.os.World) (s : SslSocket l.os.World)
      → s.ssl_sock ≡ none
      → κ.live w ≡ 0
      → Held (ctx_made l (r, w) s).1
  unfolding ctx_made fail_start
  ctx_made-Held none w s n h = h ∙ ap count (sym n)
  ctx_made-Held (some c) w s n h =
      let made = l.ssl_new c w in
      ssl_made-Held made.0 made.1 (record s { ssl_ctx = some c })
        (κ.ssl_new_live c w ∙ ap (λ n. n + count made.0) h ∙ (omega arith))

  shaken-Held :
      (r : ℤ) (w : l.os.World) (s : SslSocket l.os.World)
      → κ.live w ≡ count s.ssl_sock
      → Held (shaken l (r, w) s).1
  unfolding shaken fail_start
  shaken-Held r w s h = ground arith

  shake-Held :
      (m : Method) (k : Option ℕ) (s : SslSocket l.os.World) → Held s → Held (shake l m k s).1
  unfolding shake
  shake-Held m none s h = h
  shake-Held m (some k) s h =
      let done = l.handshake m k s.world in
      shaken-Held done.0 done.1 s (κ.handshake_live m k s.world ∙ h)

  resume-Held :
      (m : Method) (r : Outcome (Unit {0})) (s : SslSocket l.os.World)
      → Held s
      → Held (resume r (λ _ s. shake l m s.ssl_sock s) s).1
  resume-Held m (ok tt) s h = shake-Held m s.ssl_sock s h
  resume-Held m (throws e) s h = h
  resume-Held m (halts e) s h = h

  pub begin_session-Held :
      (m : Method) (s : SslSocket l.os.World)
      → s.ssl_sock ≡ none
      → Held s
      → Held (begin_session l m s).1
  unfolding begin_session new_ssl_socket
  begin_session-Held m s n h =
      let made = l.ctx_new m s.world in
      resume-Held m (ctx_made l made s).0 (ctx_made l made s).1
        (ctx_made-Held made.0 made.1 s n (κ.ctx_new_live m s.world ∙ h ∙ ap count n))

  shut-Held :
      (k : ℕ) (r : ℤ) (w : l.os.World) (s : SslSocket l.os.World)
      → s.ssl_sock ≡ some k
      → κ.live w ≡ 1
      → Held (shut l k (r, w) s).1
  unfolding shut
  shut-Held k r w s e h = elim (Bool-cases (not_positive r)) [
    | inl failed ↦ rw failed (h ∙ ap count (sym e))
    | inr done ↦
        let freed : κ.live (l.ssl_free k w) ≡ 0 =
          omega (arith, κ.ssl_free_live k w (omega (arith, h)), h) in
        rw done (κ.ctx_free_live s.ssl_ctx (l.ssl_free k w) ∙ freed)
  ]

  stop_session-Held :
      (k : Option ℕ) (s : SslSocket l.os.World)
      → s.ssl_sock ≡ k
      → Held s
      → Held (stop_session l k s).1
  unfolding stop_session
  stop_session-Held none s e h = h
  stop_session-Held (some k) s e h =
      let done = l.shutdown k s.world in
      shut-Held k done.0 done.1 s e (κ.shutdown_live k s.world ∙ h ∙ ap count e)

  pub stop_ssl-Held : (s : SslSocket l.os.World) → Held s → Held (stop_ssl l s).1
  unfolding stop_ssl
  stop_ssl-Held s h = stop_session-Held s.ssl_sock s refl h
