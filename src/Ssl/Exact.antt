-- ===== src/Ssl/Exact.antt =====
-- The fixed-size read of an SSL socket, which asks for the whole length each time.
use socketxx.Common.{
  ℕ, zero, suc, ◌+◌, ◌-◌, ◌^◌, ◌≤◌, ◌<◌, ◌≡◌, ◌≢◌, refl, ap, sym, ◌∙◌, ◌==◌, false, List, [], ◌∷◌,
  ◌++◌, length, arith, inl, inr, some, Bool-cases, ltb, length-append, append_assoc, append-nil,
}
use socketxx.Common.Int.{pos, int_of-small}
use socketxx.Common.Outcome.{ok}
use socketxx.Ssl.{
  OpenSsl, SslSocket, i_fixsize, i_fixsize_ssl, more_ssl, i_ssl, got, in_world, by_session,
}

-- SSL_read on a session with bytes waiting: asked for a positive `int`, one at least, and no more
-- than asked for.
pub record IsReadable (l : OpenSsl) (k : ℕ) : Type 0 where
  pub pending : l.os.World → List ℕ
  pub read_takes :
      (n : ℕ) (w : l.os.World)
      → 0 < n
      → pending w ≢ []
      → (bs : List ℕ) × (w' : l.os.World) × (l.read k (pos n) w ≡ (inr bs, w'))
        × (pending w ≡ bs ++ pending w')
        × (0 < length bs)
        × (length bs ≤ n)
  pub clear_keeps : (w : l.os.World) → pending (l.clear w) ≡ pending w

length-zero : {A : Type 0} (xs : List A) → length xs ≡ 0 → xs ≡ []
length-zero [] e = refl
length-zero (x ∷ xs) e = absurd (omega arith)

module _ (l : OpenSsl) (k : ℕ) (κ : IsReadable l k) where
  pub i_ssl-takes :
      (n : ℕ) (w : l.os.World)
      → 0 < n
      → n < 2 ^ 31
      → κ.pending w ≢ []
      → (bs : List ℕ) × (w' : l.os.World) × (i_ssl l k n w ≡ (ok bs, w'))
        × (κ.pending w ≡ bs ++ κ.pending w')
        × (0 < length bs)
        × (length bs ≤ n)
  unfolding i_ssl got
  i_ssl-takes n w h small e =
      let (bs, w', r, p, one, le) = κ.read_takes n w h e in
      let some_bytes : ltb (length bs) 1 ≡ false = ground (arith, one) in
      (
        bs,
        l.clear w',
        rw (int_of-small n small) (rw r (rw some_bytes refl)),
        p ∙ ap (λ q. bs ++ q) (sym (κ.clear_keeps w')),
        one,
        le,
      )

  -- A round of the loop, with a read that fits into what is missing.
  more_ssl-round :
      (fuel len rest : ℕ) (filled bs : List ℕ) (w w' : l.os.World)
      → 0 < rest
      → length bs ≤ rest
      → i_ssl l k len w ≡ (ok bs, w')
      → more_ssl l (suc fuel) k len rest filled w
        ≡ more_ssl l fuel k len (rest - length bs) (filled ++ bs) w'
  unfolding more_ssl
  more_ssl-round fuel len rest filled bs w w' some_missing le e =
      let go : (rest == 0) ≡ false = ground arith in
      let fits : ltb rest (length bs) ≡ false = ground arith in rw go (rw e (rw fits refl))

  more_ssl-filled :
      (fuel len : ℕ) (filled : List ℕ) (w : l.os.World)
      → more_ssl l (suc fuel) k len 0 filled w ≡ (ok filled, w)
  unfolding more_ssl
  more_ssl-filled fuel len filled w = refl

  -- All that waits is what is missing.
  more_ssl-exact :
      (fuel len rest : ℕ) (filled : List ℕ) (w : l.os.World)
      → 0 < len
      → len < 2 ^ 31
      → length (κ.pending w) ≡ rest
      → rest < fuel
      → (w' : l.os.World) × (more_ssl l fuel k len rest filled w ≡ (ok (filled ++ κ.pending w), w'))
        × (κ.pending w' ≡ [])
  more_ssl-exact zero len rest filled w p small e h = absurd (omega arith)
  more_ssl-exact (suc fuel) len zero filled w p small e h =
      let nothing = length-zero (κ.pending w) e in
      (
        w,
        more_ssl-filled fuel len filled w
            ∙ ap (λ q. (ok q, w)) (sym (append-nil filled) ∙ ap (λ q. filled ++ q) (sym nothing)),
        nothing,
      )
  more_ssl-exact (suc fuel) len (suc rest) filled w p small e h =
      let waits : κ.pending w ≢ [] = λ n. omega (arith, e, ap length n) in
      let (bs, w1, r, q, one, le) = i_ssl-takes len w p small waits in
      let size : length (κ.pending w) ≡ length bs + length (κ.pending w1) =
        ap length q ∙ length-append bs (κ.pending w1) in
      let left : length (κ.pending w1) ≡ suc rest - length bs = omega (arith, size, e) in
      let fits : length bs ≤ suc rest = omega (arith, size, e) in
      let smaller : suc rest - length bs < fuel = omega (arith, one, h) in
      let (w2, g, n) =
        more_ssl-exact fuel len (suc rest - length bs) (filled ++ bs) w1 p small left smaller in
      (
        w2,
        more_ssl-round fuel len (suc rest) filled bs w w1 (omega arith) fits r
            ∙ g
            ∙ ap (λ q. (ok q, w2))
                (append_assoc filled bs (κ.pending w1) ∙ ap (λ q. filled ++ q) (sym q)),
        n,
      )

  i_fixsize_ssl-exact :
      (len : ℕ) (w : l.os.World)
      → 0 < len
      → len < 2 ^ 31
      → length (κ.pending w) ≡ len
      → (w' : l.os.World) × (i_fixsize_ssl l k len w ≡ (ok (κ.pending w), w')) × (κ.pending w' ≡ [])
  unfolding i_fixsize_ssl
  i_fixsize_ssl-exact len w p small e =
      let waits : κ.pending w ≢ [] = λ n. omega (arith, p, e, ap length n) in
      let (bs, w1, r, q, one, le) = i_ssl-takes len w p small waits in
      let size : length (κ.pending w) ≡ length bs + length (κ.pending w1) =
        ap length q ∙ length-append bs (κ.pending w1) in
      let left : length (κ.pending w1) ≡ len - length bs = omega (arith, size, e) in
      let enough : len - length bs < suc len = omega arith in
      elim (Bool-cases (ltb (length bs) len)) [
        | inl short ↦
            let (w2, g, n) =
              more_ssl-exact (suc len) len (len - length bs) bs w1 p small left enough in
            (w2, rw r (rw short (g ∙ ap (λ q. (ok q, w2)) (sym q))), n)
        | inr full ↦
            let none_left = length-zero (κ.pending w1) (ground (arith, size, e, le, full)) in
            (
              w1,
              rw r (
                  rw full
                    (ap (λ q. (ok q, w1)) (sym (q ∙ ap (λ r. bs ++ r) none_left ∙ append-nil bs)))),
              none_left,
            )
      ]

  -- With a session, where SSL_read, asked for a positive `int`, gives one byte at least and no more
  -- than that, for a length above 0 and below 2^31, of which exactly that many bytes are waiting: the fixed-size read returns them, however the session
  -- splits them over its reads.
  pub i_fixsize-exact :
      (len : ℕ) (s : SslSocket l.os.World)
      → 0 < len
      → len < 2 ^ 31
      → s.ssl_sock ≡ some k
      → length (κ.pending s.world) ≡ len
      → (w : l.os.World) × (i_fixsize l len s ≡ (ok (κ.pending s.world), record s { world = w }))
        × (κ.pending w ≡ [])
  unfolding i_fixsize by_session in_world
  i_fixsize-exact len s p small h e =
      let (w, g, n) = i_fixsize_ssl-exact len s.world p small e in (w, rw h (rw g refl), n)
