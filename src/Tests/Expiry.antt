-- ===== src/Tests/Expiry.antt =====
-- Constructors on a regular file, and a pipe on which nothing more comes.
use socketxx.Common.{
  ℕ, zero, suc, ◌≤◌, ◌<◌, ◌≡◌, ◌≢◌, refl, true, Option, none, some, List, [], ◌∷◌, ◌++◌, length,
  arith,
}
use socketxx.Common.Int.{pos, minus_one}
use socketxx.Common.Outcome.{throws, io_error, reading}
use socketxx.BaseIo.{Os, Timeval}
use socketxx.BaseIo.Pipe
use socketxx.BaseIo.Pipe.{read_end, etimedout, is_timeout_error}
use socketxx.BaseIo.Pipe.Exact.{IsReadable}
use socketxx.BaseIo.Pipe.TimesOut.{Expires, i_fixsize-expires}

-- The bytes that wait, and errno.
record Tap : Type 0 where
  bytes : List ℕ
  cause : ℕ

abbrev select_bytes : List ℕ → ℕ
select_bytes [] = 0
select_bytes (b ∷ bs) = 1

abbrev first_of : List ℕ → Tap → Option (List ℕ) × Tap
first_of [] s = (some [], s)
first_of (b ∷ bs) s = (some (b ∷ []), record s { bytes = bs })

-- Every descriptor is a regular file to fstat(); reads give one byte at a time.
abbrev tap_os : Os
tap_os = record {
  World = Tap;
  errno = λ s. s.cause;
  set_errno = λ e s. record s { cause = e };
  read = λ fd n s. first_of s.bytes s;
  write = λ fd bs s. (none, s);
  send = λ fd bs flags s. (none, s);
  recv = λ fd n flags s. (none, s);
  select_read = λ fd tm s. ((some (select_bytes s.bytes), record { sec = pos 0; usec = pos 1 }), s);
  set_rcvtimeo = λ fd tm s. (none, s);
  get_rcvtimeo = λ fd s. (none, s);
  fstat_mode = λ fd s. (some 0o100644, s);
}

abbrev tap : Tap
tap = record { bytes = 7 ∷ 8 ∷ []; cause = 0 }

first_of_takes :
    (bytes : List ℕ) (n : ℕ) (s : Tap)
    → 0 < n
    → bytes ≢ []
    → (bs : List ℕ) × (s' : Tap) × (first_of bytes s ≡ (some bs, s'))
      × (bytes ≡ bs ++ s'.bytes)
      × (0 < length bs)
      × (length bs ≤ n)
first_of_takes [] n s h e = absurd (e refl)
first_of_takes (b ∷ bs) n s h e =
    (b ∷ [], record s { bytes = bs }, refl, refl, omega arith, omega arith)

unfoldable tap_IsReadable : IsReadable tap_os (pos 3)
unfolding first_of_takes
tap_IsReadable = record {
  pending = λ s. s.bytes;
  read_takes = λ n s h e. first_of_takes s.bytes n s h e;
}

abbrev shortly : Timeval
shortly = record { sec = pos 0; usec = pos 1 }

some_selected :
    (bytes : List ℕ) (s : Tap)
    → bytes ≢ []
    → (n : ℕ) × (◌≡◌ {A = (Option ℕ × Timeval) × Tap}
        ((some (select_bytes bytes), shortly), s)
        ((some (suc n), shortly), s))
some_selected [] s e = absurd (e refl)
some_selected (b ∷ bs) s e = (0, refl)

none_selected :
    (bytes : List ℕ) (s : Tap)
    → bytes ≡ []
    → ◌≡◌ {A = (Option ℕ × Timeval) × Tap}
        ((some (select_bytes bytes), shortly), s)
        ((some zero, shortly), s)
none_selected [] s e = refl
none_selected (b ∷ bs) s e = cc

unfoldable tap_Expires : Expires tap_IsReadable
unfolding tap_IsReadable some_selected none_selected
tap_Expires = record {
  finds = λ tm s h e. let (n, g) = some_selected s.bytes s e in (n, shortly, s, g, refl, refl);
  expires = λ tm s h e. (shortly, s, none_selected s.bytes s e, e);
  errno_stored = λ n s. refl;
  errno_keeps = λ n s. refl;
}

-- Three bytes are wanted, and two come.
i_fixsize-expires_example :
    (s' : Tap) × (Pipe.i_fixsize tap_os (pos 3) read_end 1 3 shortly tap
      ≡ (throws (io_error minus_one reading etimedout), s'))
    × (is_timeout_error (io_error minus_one reading etimedout) ≡ true)
    × (s'.bytes ≡ [])
unfolding tap_IsReadable
i_fixsize-expires_example = i_fixsize-expires tap_Expires 0 3 shortly tap refl (omega arith)
