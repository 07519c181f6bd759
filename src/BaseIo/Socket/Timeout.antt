-- ===== src/BaseIo/Socket/Timeout.antt =====
-- The read timeout of a socket is stored with another value for "none" than the library's.
use socketxx.Common.{◌≡◌, ap, sym, true, false, some, arith, Bool-cases, inl, inr, ==_iff}
use socketxx.Common.Int.{ℤ, pos, negsuc, eqb}
use socketxx.Common.Outcome.{ok}
use socketxx.BaseIo.{Os, Timeval, timeval_eq, timeout_inf, timeout_noblock}
use socketxx.BaseIo.Socket.{set_read_timeout, get_read_timeout}

-- setsockopt() succeeds on this descriptor, and getsockopt() then returns what was set.
pub record StoresTimeout (os : Os) (fd : ℤ) : Type 0 where
  pub stored :
      (tm : Timeval) (s : os.World)
      → (s' : os.World) × (os.set_rcvtimeo fd tm s ≡ (some 0, s'))
        × (os.get_rcvtimeo fd s' ≡ (some tm, s'))

pub eqb_sound : (a b : ℤ) → eqb a b ≡ true → a ≡ b
eqb_sound (pos m) (pos n) h = ap pos ((==_iff m n).0 h)
eqb_sound (pos m) (negsuc n) h = cc
eqb_sound (negsuc m) (pos n) h = cc
eqb_sound (negsuc m) (negsuc n) h = ap negsuc ((==_iff m n).0 h)

timeval_eq_sound : (a b : Timeval) → timeval_eq a b ≡ true → a ≡ b
timeval_eq_sound a b h = ground (arith, eqb_sound a.sec b.sec, eqb_sound a.usec b.usec)

module _ (os : Os) (fd : ℤ) (κ : StoresTimeout os fd) where
  -- Where the system stores the value of the option, every timeout but the non-blocking one, the
  -- infinite one included, is accepted and read back as it was set.
  get_read_timeout-set_read_timeout :
      (tm : Timeval) (s : os.World)
      → timeval_eq tm timeout_noblock ≡ false
      → (s' : os.World) × (set_read_timeout os fd tm s ≡ (ok tt, s'))
        × (get_read_timeout os fd s' ≡ (ok tm, s'))
  unfolding set_read_timeout get_read_timeout
  get_read_timeout-set_read_timeout tm s h = elim (Bool-cases (timeval_eq tm timeout_inf)) [
    | inl inf ↦
        let (s', p, q) = κ.stored timeout_noblock s in
        (
          s',
          rw h (rw inf (rw p)),
          rw q (ap (λ t. (ok t, s')) (sym (timeval_eq_sound tm timeout_inf inf))),
        )
    | inr finite ↦ let (s', p, q) = κ.stored tm s in (s', rw h (rw finite (rw p)), rw q (rw h))
  ]
