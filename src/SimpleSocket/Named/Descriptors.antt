-- ===== src/SimpleSocket/Named/Descriptors.antt =====
-- A descriptor that `o_sock` sends is the one that `i_sock` takes.
use socketxx.Common.{
  ℕ, ◌%◌, ◌^◌, ◌<◌, ◌≡◌, refl, ap, ◌∙◌, Bool, true, false, some, List, ◌++◌, ltb, arith,
}
use socketxx.Common.Int.{ℤ, pos}
use socketxx.Common.Outcome.{ok}
use socketxx.Transport.{Transport, IsStream}
use socketxx.BaseIo.Lifetime.{Handle, construct, set_preserved}
use socketxx.SimpleSocket.Bytes.{le_bytes}
use socketxx.SimpleSocket.RoundTrip.{Writes-o_int, Reads-i_int}
use socketxx.SimpleSocket.Named.{Files, o_sock, i_sock, dup_fd, duplicated, check_fd, fd_checked}

module _ {t : Transport} (σ : IsStream t) (big : Bool) (x : Files t.State) where
  o_sock-sends :
      (sock : Handle) (n : ℕ) (s s1 : t.State)
      → x.dup sock.fd s ≡ (some (pos n), s1)
      → σ.IsUp s1
      → n < 2 ^ 31
      → (s' : t.State) × ((o_sock t big x sock).1 s ≡ (ok tt, s'))
        × (σ.sent s' ≡ σ.sent s1 ++ le_bytes 4 n)
  unfolding o_sock dup_fd duplicated set_preserved
  o_sock-sends sock n s s1 e up h =
      let small : n % 2 ^ 32 ≡ n = omega (arith, h) in
      let (s', w, f, p, u) = (Writes-o_int σ big 4 (n % 2 ^ 32)).at s1 up in
      (s', rw e w, f ∙ ap (λ k. σ.sent s1 ++ le_bytes 4 k) small)

-- The descriptor is open in the process that reads.
pub record IsOpen {t : Transport} (ρ : IsStream t) (x : Files t.State) (fd : ℤ) : Type 0 where
  pub open_there :
      (s : t.State)
      → (flags : ℕ) × (s' : t.State) × (x.get_fd_flags fd s ≡ (some flags, s'))
        × (ρ.pending s' ≡ ρ.pending s)

module _ {t : Transport} (ρ : IsStream t) (x : Files t.State) (n : ℕ) (ω : IsOpen ρ x (pos n)) where
  check_fd-open :
      (s : t.State)
      → (s' : t.State) × (check_fd x (pos n) s ≡ (ok tt, s')) × (ρ.pending s' ≡ ρ.pending s)
  unfolding check_fd fd_checked
  check_fd-open s =
      let (flags, s', e, p) = ω.open_there s in
      let valid : ltb n 0 ≡ false = ground arith in (s', rw valid (rw e refl), p)

  i_sock-takes :
      (rest : List ℕ) (s : t.State)
      → n < 2 ^ 31
      → ρ.pending s ≡ le_bytes 4 n ++ rest
      → (s' : t.State) × (i_sock t false x s ≡ (ok (construct true (pos n)), s'))
        × (ρ.pending s' ≡ rest)
  unfolding i_sock
  i_sock-takes rest s h e =
      let (s1, r, p, f) = (Reads-i_int ρ 4 n (omega (arith, h))).at s rest e in
      let (s2, c, q) = check_fd-open s1 in
      let low : ltb n (2 ^ 31) ≡ true = ground (arith, h) in (s2, rw r (rw low (rw c refl)), q ∙ p)

-- A writer of either byte order and a little-endian reader; the writer's socket is duplicated and
-- the link is up then; the duplicate is open where the reader is, and what is sent is next in the
-- reader's stream. `o_sock` preserves the object from then on and sends the duplicate's number in
-- four bytes; `i_sock` makes an object of it that is closed automatically and not preserved.
pub o_sock-i_sock :
    {t r : Transport} (σ : IsStream t) (ρ : IsStream r) (big : Bool) (x : Files t.State)
    (y : Files r.State) (sock : Handle) (n : ℕ) (s s1 : t.State) (rest : List ℕ) (u : r.State)
    → IsOpen ρ y (pos n)
    → x.dup sock.fd s ≡ (some (pos n), s1)
    → σ.IsUp s1
    → n < 2 ^ 31
    → ρ.pending u ≡ le_bytes 4 n ++ rest
    → ((o_sock t big x sock).0.preserve_fd ≡ true)
      × ((s' : t.State) × ((o_sock t big x sock).1 s ≡ (ok tt, s'))
          × (σ.sent s' ≡ σ.sent s1 ++ le_bytes 4 n))
      × ((u' : r.State) × (i_sock r false y u ≡ (ok (construct true (pos n)), u'))
          × (ρ.pending u' ≡ rest))
unfolding o_sock set_preserved
o_sock-i_sock σ ρ big x y sock n s s1 rest u ω d up h e =
    (refl, o_sock-sends σ big x sock n s s1 d up h, i_sock-takes ρ y n ω rest u h e)
