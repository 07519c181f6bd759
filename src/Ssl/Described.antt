-- ===== src/Ssl/Described.antt =====
-- The text of an SSL error (socket++/base_ssl.cpp), which is made from OpenSSL's queue of errors and
-- empties it.
use Prim.Native.String.{String}
use socketxx.Common.{
  ℕ, zero, suc, ◌<◌, ◌≡◌, refl, ◌==◌, ◌||◌, Option, none, some, List, [], ◌∷◌, length,
  if◌then◌else◌, arith,
}
use socketxx.Common.Int.{ℤ, minus_one, eqb}
use socketxx.Common.Outcome.{
  Outcome, halts, Direction, SslPhase, ssl_start, ssl_stop, ok, pure, no_fuel, ◌>>=◌,
}
use socketxx.Describe.{◌⊹◌, Texts, doing}

-- The queue and the texts of OpenSSL, and its names for what SSL_get_error() returns.
pub record ErrorQueue : Type 1 where
  pub World : Type 0
  pub get_error : World → ℕ × World
  pub clear_error : World → World
  pub ssl_get_error : ℕ → ℤ → World → ℕ
  pub reason : ℕ → String
  pub func : ℕ → String
  pub error_ssl : ℕ
  pub error_syscall : ℕ
  pub error_want_read : ℕ
  pub error_want_write : ℕ
  pub error_want_connect : ℕ
  pub error_want_accept : ℕ
  pub error_zero_return : ℕ

-- ssl_error::_type
pub data Task : Type 0 where
  during : Direction → Task
  switching : SslPhase → Task

abbrev pub when : Task → String
when (during d) = doing d ⊹ " data"
when (switching ssl_start) = "starting SSL mode"
when (switching ssl_stop) = "stopping SSL mode"

module _ (q : ErrorQueue) (x : Texts) where
  -- What SSL_get_error() said
  unfoldable pub by_code : Task → ℕ → String
  by_code t ssl_error =
      if ssl_error == q.error_ssl
      then "Internal OpenSSL error while " ⊹ when t
      else if ssl_error == q.error_syscall
      then "SSL underlying socket error while " ⊹ when t
      else if ssl_error == q.error_want_read || ssl_error == q.error_want_write
      then "IO SSL socket error (EWOULDBLOCK) while " ⊹ when t
      else if ssl_error == q.error_want_connect || ssl_error == q.error_want_accept
      then "SSL handshake error while " ⊹ when t
      else if ssl_error == q.error_zero_return
      then "SSL bad connection while " ⊹ when t
      else "SSL error while " ⊹ when t

  unfoldable pub what_failed : Task → Option ℕ → ℤ → q.World → String
  unfolding by_code
  what_failed t none ssl_r w = "SSL error while " ⊹ when t
  what_failed t (some ssl_sock) ssl_r w = by_code t (q.ssl_get_error ssl_sock ssl_r w)

  unfoldable pub queued_error : ℕ → String
  queued_error e = x.decimal e ⊹ " = " ⊹ q.reason e ⊹ " (in " ⊹ q.func e ⊹ ")"

  -- while ((err_error = ERR_get_error()) != 0): what it appends to the text
  listed : (q.World → Outcome String × q.World) → ℕ × q.World → Outcome String × q.World
  listed next (zero, w) = (ok "", w)
  listed next (suc e, w) = (next >>= λ rest. pure (" > " ⊹ queued_error (suc e) ⊹ rest)) w

  further : ℕ → q.World → Outcome String × q.World
  unfolding listed
  further zero w = (halts no_fuel, w)
  further (suc fuel) w = listed (further fuel) (q.get_error w)

  unfoldable pub without_error : ℤ → ℕ → String
  without_error ssl_r std_errno =
      if eqb ssl_r minus_one
      then " : Underlying socket error : #" ⊹ x.decimal std_errno ⊹ " " ⊹ x.strerror std_errno
      else " : EOF observed"

  queued : ℕ → ℤ → ℕ → ℕ × q.World → Outcome String × q.World
  unfolding queued_error without_error further
  queued fuel ssl_r std_errno (zero, w) = (ok (without_error ssl_r std_errno), w)
  queued fuel ssl_r std_errno (suc e, w) =
      (further fuel >>= λ rest. pure (" : " ⊹ queued_error (suc e) ⊹ rest)) w

  cleared : Outcome String × q.World → Outcome String × q.World
  cleared (r, w) = (r, q.clear_error w)

  -- ssl_error::descr; `fuel` bounds the rounds of the loop.
  unfoldable pub ssl_descr : ℕ → Task → Option ℕ → ℤ → ℕ → q.World → Outcome String × q.World
  unfolding what_failed queued cleared
  ssl_descr fuel t ssl_sock ssl_r std_errno w = cleared (
      ((λ u. queued fuel ssl_r std_errno (q.get_error u)) >>= λ rest.
      pure (what_failed t ssl_sock ssl_r w ⊹ rest))
        w)

-- ERR_get_error() takes the oldest error, which is not 0, or gives 0.
pub record IsQueue (q : ErrorQueue) : Type 0 where
  pub pending : q.World → List ℕ
  pub none_left :
      (w : q.World)
      → pending w ≡ []
      → (w' : q.World) × (q.get_error w ≡ (0, w')) × (pending w' ≡ [])
  pub next_left :
      (w : q.World) (e : ℕ) (es : List ℕ)
      → pending w ≡ e ∷ es
      → (d : ℕ) × (w' : q.World) × (e ≡ suc d) × (q.get_error w ≡ (suc d, w')) × (pending w' ≡ es)
  pub clear_empties : (w : q.World) → pending (q.clear_error w) ≡ []

module _ {q : ErrorQueue} (κ : IsQueue q) (x : Texts) where
  -- The errors after the first one, and all of them.
  abbrev pub others_text : List ℕ → String
  others_text [] = ""
  others_text (e ∷ es) = " > " ⊹ queued_error q x e ⊹ others_text es

  abbrev pub queue_text : ℤ → ℕ → List ℕ → String
  queue_text ssl_r std_errno [] = without_error q x ssl_r std_errno
  queue_text ssl_r std_errno (e ∷ es) = " : " ⊹ queued_error q x e ⊹ others_text es

  further-others :
      (fuel : ℕ) (es : List ℕ) (w : q.World)
      → κ.pending w ≡ es
      → length es < fuel
      → (w' : q.World) × (further q x fuel w ≡ (ok (others_text es), w'))
  unfolding further listed
  further-others zero es w p h = absurd (omega arith)
  further-others (suc fuel) [] w p h = let (w1, g, _) = κ.none_left w p in (w1, rw g refl)
  further-others (suc fuel) (e ∷ es) w p h =
      let (d, w1, n, g, r) = κ.next_left w e es p in
      let (w2, f) = further-others fuel es w1 r (omega arith) in (w2, rw g (rw n (rw f refl)))

  queued-text :
      (fuel : ℕ) (ssl_r : ℤ) (std_errno : ℕ) (es : List ℕ) (w : q.World)
      → κ.pending w ≡ es
      → length es < fuel
      → (w' : q.World) × (queued q x fuel ssl_r std_errno (q.get_error w)
          ≡ (ok (queue_text ssl_r std_errno es), w'))
  unfolding queued
  queued-text fuel ssl_r std_errno [] w p h = let (w1, g, _) = κ.none_left w p in (w1, rw g refl)
  queued-text fuel ssl_r std_errno (e ∷ es) w p h =
      let (d, w1, n, g, r) = κ.next_left w e es p in
      let (w2, f) = further-others fuel es w1 r (omega arith) in (w2, rw g (rw n (rw f refl)))

  -- Where ERR_get_error() takes the errors off its queue in order and ERR_clear_error() empties it,
  -- with fuel above the number of errors: the text of an SSL error ends, says what was being done,
  -- and lists all errors of the queue in order, or says what the result or errno tells if there
  -- are none; the queue is empty then.
  ssl_descr-lists :
      (fuel : ℕ) (t : Task) (ssl_sock : Option ℕ) (ssl_r : ℤ) (std_errno : ℕ) (w : q.World)
      → length (κ.pending w) < fuel
      → (w' : q.World) × (ssl_descr q x fuel t ssl_sock ssl_r std_errno w ≡ (
        ok (what_failed q x t ssl_sock ssl_r w ⊹ queue_text ssl_r std_errno (κ.pending w)),
        w',
      ))
        × (κ.pending w' ≡ [])
  unfolding ssl_descr cleared
  ssl_descr-lists fuel t ssl_sock ssl_r std_errno w h =
      let (w1, g) = queued-text fuel ssl_r std_errno (κ.pending w) w refl h in
      (q.clear_error w1, rw g refl, κ.clear_empties w1)
