-- ===== src/Ssl/Reach.antt =====
-- What happens to the SSL objects of a socket over its life.
use socketxx.Common.{ℕ, ◌≡◌, ◌∙◌, refl, sym, ap, true, none, some, List}
use socketxx.Common.Int.{minus_one}
use socketxx.Common.Outcome.{Outcome, throws, ssl_error, ssl_stop}
use socketxx.Ssl.{
  OpenSsl, SslSocket, client, server, not_positive, start_ssl, wait_for_ssl, stop_ssl, destroy_ssl,
  o, i, i_fixsize, stop_session, shut, stop_if_started,
}
use socketxx.Ssl.Session.{CountsSessions, Held, count, begin_session-Held, stop_ssl-Held}
use socketxx.Ssl.Traffic.{
  by_session-Held, o-Keeps, i-Keeps, i_fixsize-Keeps, o_ssl-Keeps, i_ssl-Keeps, i_fixsize_ssl-Keeps,
}

module _ (l : OpenSsl) where
  -- A use of a socket, whatever comes of it; a session starts only where there is none.
  pub data Step : SslSocket l.os.World → SslSocket l.os.World → Type 0 where
    connects : {s : SslSocket l.os.World} → s.ssl_sock ≡ none → Step s (start_ssl l s).1
    accepts : {s : SslSocket l.os.World} → s.ssl_sock ≡ none → Step s (wait_for_ssl l s).1
    stops : {s : SslSocket l.os.World} → Step s (stop_ssl l s).1
    writes : {s : SslSocket l.os.World} (d : List ℕ) → Step s (o l d s).1
    reads : {s : SslSocket l.os.World} (n : ℕ) → Step s (i l n s).1
    fills : {s : SslSocket l.os.World} (n : ℕ) → Step s (i_fixsize l n s).1

  pub data Reach (s : SslSocket l.os.World) : SslSocket l.os.World → Type 0 where
    here : Reach s s
    next : {t u : SslSocket l.os.World} → Reach s t → Step t u → Reach s u

module _ {l : OpenSsl} (κ : CountsSessions l) where
  Step-Held : {s t : SslSocket l.os.World} → Step l s t → Held κ s → Held κ t
  unfolding start_ssl wait_for_ssl o i i_fixsize
  Step-Held (connects {s} n) h = begin_session-Held κ client s n h
  Step-Held (accepts {s} n) h = begin_session-Held κ server s n h
  Step-Held (stops {s}) h = stop_ssl-Held κ s h
  Step-Held (writes {s} d) h =
      by_session-Held κ s.ssl_sock _ _ s (o-Keeps κ s.fd d) (o_ssl-Keeps κ d) h
  Step-Held (reads {s} n) h =
      by_session-Held κ s.ssl_sock _ _ s (i-Keeps κ s.fd n) (i_ssl-Keeps κ n) h
  Step-Held (fills {s} n) h =
      by_session-Held κ s.ssl_sock _ _ s (i_fixsize-Keeps κ s.fd n) (i_fixsize_ssl-Keeps κ n) h

  -- However a socket that has no session is used, as long as sessions start only where there is
  -- none, and whatever fails: it holds one SSL object if its pointer is not NULL, else none.
  pub Reach-Held :
      {s t : SslSocket l.os.World}
      → Reach l s t
      → s.ssl_sock ≡ none
      → κ.live s.world ≡ 0
      → κ.live t.world ≡ count t.ssl_sock
  Reach-Held here n h = h ∙ ap count (sym n)
  Reach-Held (next r step) n h = Step-Held step (Reach-Held r n h)

  stop_ssl-stays :
      (s : SslSocket l.os.World) (k : ℕ)
      → s.ssl_sock ≡ some k
      → not_positive (l.shutdown k s.world).0 ≡ true
      → stop_ssl l s ≡ (
        throws (ssl_error ssl_stop none minus_one (l.os.errno (l.shutdown k s.world).1)),
        record s { world = (l.shutdown k s.world).1 },
      )
  unfolding stop_ssl stop_session shut
  stop_ssl-stays s k e r = ap (λ p. stop_session l p s) e ∙ rw r refl

  -- Where SSL_shutdown gives 0 or less, as for the side that closes first, stop_ssl throws and the
  -- session stays; the destructor then drops the pointer and leaves the SSL object allocated.
  stop_ssl-unfinished :
      (s : SslSocket l.os.World) (k : ℕ)
      → s.ssl_sock ≡ some k
      → Held κ s
      → not_positive (l.shutdown k s.world).0 ≡ true
      → ((stop_ssl l s).0
          ≡ throws (ssl_error ssl_stop none minus_one (l.os.errno (l.shutdown k s.world).1)))
        × ((stop_ssl l s).1.ssl_sock ≡ some k)
        × (κ.live (destroy_ssl l s).world ≡ 1)
  unfolding destroy_ssl stop_if_started
  stop_ssl-unfinished s k e h r =
      let stays = stop_ssl-stays s k e r in
      (
        ap (λ (p : Outcome (Unit {0}) × SslSocket l.os.World). p.0) stays,
        ap (λ (p : Outcome (Unit {0}) × SslSocket l.os.World). p.1.ssl_sock) stays ∙ e,
        ap (λ p. κ.live (stop_if_started l p s).world) e
            ∙ ap (λ (p : Outcome (Unit {0}) × SslSocket l.os.World). κ.live p.1.world) stays
            ∙ κ.shutdown_live k s.world
            ∙ h
            ∙ ap count e,
      )
