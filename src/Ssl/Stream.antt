-- ===== src/Ssl/Stream.antt =====
-- base_ssl in a session, as what a text protocol writes to and reads from.
use socketxx.Common.{
  ℕ, ◌^◌, ◌<◌, ◌≡◌, ◌≢◌, refl, ap, sym, ◌∙◌, Option, none, some, List, [], ◌++◌, length, false,
  arith, append-nil, append_assoc,
}
use socketxx.Common.Int.{pos, ltb_ℤ, int_of-small}
use socketxx.Common.Outcome.{Outcome, Exec, ok, pure, resume, ◌>>◌}
use socketxx.TextSocket.Lines.{IsSource}
use socketxx.Ssl.{OpenSsl, SslSocket, o, i, by_session, in_world, o_ssl, i_ssl, written}
use socketxx.Ssl.Exact.{IsReadable, i_ssl-takes}

-- SSL_write on a session that is up takes the whole buffer, of a size that is a positive `int`.
pub record IsWritable (l : OpenSsl) (k : ℕ) : Type 1 where
  pub IsUp : l.os.World → Type 0
  pub sent : l.os.World → List ℕ
  pub write_whole :
      (bs : List ℕ) (w : l.os.World)
      → IsUp w
      → 0 < length bs
      → length bs < 2 ^ 31
      → (w' : l.os.World) × (l.write k bs (pos (length bs)) w ≡ (pos (length bs), w'))
        × (sent (l.clear w') ≡ sent w ++ bs)
        × IsUp (l.clear w')

not_less : (n : ℕ) → ltb_ℤ (pos n) (pos n) ≡ false
not_less n = ground arith

module _ (l : OpenSsl) (k : ℕ) (ω : IsWritable l k) where
  -- In the session, `m` returns and has written exactly `bs`.
  pub record Sends (m : Exec (SslSocket l.os.World) (Unit {0})) (bs : List ℕ) : Type 0 where
    pub at :
        (s : SslSocket l.os.World)
        → s.ssl_sock ≡ some k
        → ω.IsUp s.world
        → (s' : SslSocket l.os.World) × (m s ≡ (ok tt, s'))
          × (s'.ssl_sock ≡ some k)
          × ω.IsUp s'.world
          × (ω.sent s'.world ≡ ω.sent s.world ++ bs)

  o-whole :
      (bs : List ℕ) (s : SslSocket l.os.World) (w : l.os.World)
      → s.ssl_sock ≡ some k
      → length bs < 2 ^ 31
      → l.write k bs (pos (length bs)) s.world ≡ (pos (length bs), w)
      → o l bs s ≡ (ok tt, record s { world = l.clear w })
  unfolding o by_session in_world o_ssl written
  o-whole bs s w h small e =
      rw h (rw (int_of-small (length bs) small) (rw e (rw (not_less (length bs)) refl)))

  pub Sends-o : (bs : List ℕ) → 0 < length bs → length bs < 2 ^ 31 → Sends (o l bs) bs
  Sends-o bs some_bytes small = record {
    at = λ s h up.
        let (w, e, f, u) = ω.write_whole bs s.world up some_bytes small in
        (record s { world = l.clear w }, o-whole bs s w h small e, h, u, f);
  }

  pub Sends-nothing : Sends (pure tt) []
  Sends-nothing = record { at = λ s h up. (s, refl, h, up, sym (append-nil _)) }

  pub Sends-then :
      {m n : Exec (SslSocket l.os.World) (Unit {0})} {xs ys : List ℕ}
      → Sends m xs
      → Sends n ys
      → Sends (m >> n) (xs ++ ys)
  Sends-then {m} {n} {xs} {ys} p q = record {
    at = λ s h up.
        let (s1, e1, h1, u1, f1) = p.at s h up in
        let (s2, e2, h2, u2, f2) = q.at s1 h1 u1 in
        (
          s2,
          ap (λ (r : Outcome (Unit {0}) × SslSocket l.os.World). resume r.0 (λ _. n) r.1) e1 ∙ e2,
          h2,
          u2,
          f2 ∙ ap (λ b. b ++ ys) f1 ∙ append_assoc (ω.sent s.world) xs ys,
        );
  }

module _ {l : OpenSsl} (κ : (k : ℕ) → IsReadable l k) where
  -- What waits in a session.
  abbrev pub waiting_in : Option ℕ → l.os.World → List ℕ
  waiting_in none w = []
  waiting_in (some k) w = let r = κ k in r.pending w

  i-some :
      (n k : ℕ) (s : SslSocket l.os.World)
      → s.ssl_sock ≡ some k
      → i l n s ≡ in_world l (i_ssl l k n s.world) s
  unfolding i by_session
  i-some n k s h = rw h refl

  i-takes :
      (n : ℕ) (s : SslSocket l.os.World) (x : Option ℕ)
      → s.ssl_sock ≡ x
      → 0 < n
      → n < 2 ^ 31
      → waiting_in x s.world ≢ []
      → (bs : List ℕ) × (w : l.os.World) × (i l n s ≡ (ok bs, record s { world = w }))
        × (waiting_in x s.world ≡ bs ++ waiting_in x w)
        × (0 < length bs)
  unfolding in_world
  i-takes n s none h p small e = absurd (e refl)
  i-takes n s (some k) h p small e =
      let (bs, w, r, q, z, _) = i_ssl-takes l k (κ k) n s.world p small e in
      (bs, w, i-some n k s h ∙ rw r refl, q, z)

  unfoldable pub ssl_source : (page : ℕ) → page < 2 ^ 31 → IsSource (i l) page
  unfolding i-takes i-some
  ssl_source page small = record {
    pending = λ s. waiting_in s.ssl_sock s.world;
    readf_takes = λ s p e.
        let (bs, w, r, q, z) = i-takes page s s.ssl_sock refl p small e in
        (bs, record s { world = w }, r, q, z);
  }
