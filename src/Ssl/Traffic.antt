-- ===== src/Ssl/Traffic.antt =====
-- Reading and writing make no SSL object and free none.
use Prim.Native.Nat.{bit_or}
use socketxx.Common.{
  ◌-◌, ◌++◌, ◌==◌, ℕ, zero, suc, ◌≡◌, ◌∙◌, refl, Option, none, some, List, arith, inl, inr, length,
  ltb, ◌⊎◌,
}
use socketxx.Common.Int.{ℤ, int_of}
use socketxx.Common.Keeps.{Keeps, Keeps-if, Keeps-bind, Keeps-pure}
use socketxx.Common.Outcome.{Exec}
use socketxx.BaseIo.Socket
use socketxx.BaseIo.Socket.{msg_nosignal, msg_waitall}
use socketxx.Ssl.{
  OpenSsl, SslSocket, by_session, in_world, written, got, o_ssl, i_ssl, more_ssl, i_fixsize_ssl,
}
use socketxx.Ssl.Session.{CountsSessions, Held}

module _ {l : OpenSsl} (κ : CountsSessions l) where
  -- Reading and writing, with a session and without.
  in_world-Held :
      {A : Type 0} (m : Exec l.os.World A) (s : SslSocket l.os.World)
      → Keeps κ.live m
      → Held κ s
      → Held κ (in_world l (m s.world) s).1
  unfolding in_world
  in_world-Held m s k h = k.at s.world ∙ h

  pub by_session-Held :
      {A : Type 0} (k : Option ℕ) (plain : Exec l.os.World A) (ssl : ℕ → Exec l.os.World A)
      (s : SslSocket l.os.World)
      → Keeps κ.live plain
      → ((k : ℕ) → Keeps κ.live (ssl k))
      → Held κ s
      → Held κ (by_session l k plain ssl s).1
  unfolding by_session
  by_session-Held none plain ssl s p q h = in_world-Held plain s p h
  by_session-Held (some k) plain ssl s p q h = in_world-Held (ssl k) s (q k) h

  pub o-Keeps : (fd : ℤ) (d : List ℕ) → Keeps κ.live (Socket.o l.os fd d)
  unfolding Socket.o
  o-Keeps fd d = record { at = λ w. ground (arith, κ.send_live fd d msg_nosignal w) }

  pub i-Keeps : (fd : ℤ) (n : ℕ) → Keeps κ.live (Socket.i l.os fd n)
  unfolding Socket.i
  i-Keeps fd n = record { at = λ w. ground (arith, κ.recv_live fd n msg_nosignal w) }

  pub i_fixsize-Keeps : (fd : ℤ) (n : ℕ) → Keeps κ.live (Socket.i_fixsize l.os fd n)
  unfolding Socket.i_fixsize
  i_fixsize-Keeps fd n = record {
    at = λ w. ground (arith, κ.recv_live fd n (bit_or msg_nosignal msg_waitall) w);
  }

  written-Keeps :
      (k : ℕ) (len r : ℤ) (w : l.os.World) → κ.live (written l k len (r, w)).1 ≡ κ.live w
  unfolding written
  written-Keeps k len r w = ground (arith, κ.clear_live w)

  pub o_ssl-Keeps : (d : List ℕ) (k : ℕ) → Keeps κ.live (o_ssl l k d)
  unfolding o_ssl
  o_ssl-Keeps d k = record {
    at = λ w.
        let len = int_of (length d) in
        let r = l.write k d len w in written-Keeps k len r.0 r.1 ∙ κ.write_live k d len w;
  }

  got-Keeps : (k : ℕ) (r : ℤ ⊎ List ℕ) (w : l.os.World) → κ.live (got l k (r, w)).1 ≡ κ.live w
  unfolding got
  got-Keeps k (inl r) w = refl
  got-Keeps k (inr bs) w = ground (arith, κ.clear_live w)

  pub i_ssl-Keeps : (n k : ℕ) → Keeps κ.live (i_ssl l k n)
  unfolding i_ssl
  i_ssl-Keeps n k = record {
    at = λ w. let r = l.read k (int_of n) w in got-Keeps k r.0 r.1 ∙ κ.read_live k (int_of n) w;
  }

  more_ssl-Keeps :
      (fuel k len rest : ℕ) (filled : List ℕ) → Keeps κ.live (more_ssl l fuel k len rest filled)
  unfolding more_ssl
  more_ssl-Keeps zero k len rest filled = record { at = λ w. refl }
  more_ssl-Keeps (suc fuel) k len rest filled =
      Keeps-if κ.live (rest == 0) (Keeps-pure κ.live filled) (
        Keeps-bind κ.live _ (i_ssl-Keeps len k) (λ bs.
          Keeps-if κ.live (ltb rest (length bs)) (record { at = λ w. refl })
            (more_ssl-Keeps fuel k len (rest - length bs) (filled ++ bs))))

  pub i_fixsize_ssl-Keeps : (len k : ℕ) → Keeps κ.live (i_fixsize_ssl l k len)
  unfolding i_fixsize_ssl
  i_fixsize_ssl-Keeps len k = Keeps-bind κ.live _ (i_ssl-Keeps len k) (λ bs.
      Keeps-if κ.live (ltb (length bs) len) (more_ssl-Keeps (suc len) k len (len - length bs) bs)
        (Keeps-pure κ.live bs))
