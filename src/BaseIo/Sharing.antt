-- ===== src/BaseIo/Sharing.antt =====
-- The copies of a socket object: each has its own `fd`, and all share one `_shrd_data`
-- (socket++/base_io.hpp, socket++/base_io.cpp). An object is the last one if no other is left.
use socketxx.Common.{
  ◌≡◌, ◌∙◌, refl, sym, ap, null, null-middle, Only, Only-split, Only-join, Bool, true, false, List,
  [], ◌∷◌, ◌++◌, ◌||◌, arith, if◌then◌else◌,
}
use socketxx.Common.Int.{ℤ, eqb}
use socketxx.BaseIo.Lifetime.{
  Call, Handle, construct, set_preserved, destroy_socket, socket_close, invalid_handle, farewell,
  destroy_socket-calls,
}

-- What the copies share, and the calls made so far.
pub record Shrd : Type 0 where
  pub autoclose : Bool
  pub preserve_fd : Bool
  pub calls : List Call

-- The `fd` of every object that is alive.
pub record Family : Type 0 where
  pub objects : List ℤ
  pub shrd : Shrd

-- One of the objects.
abbrev seen : ℤ → Shrd → Handle
seen x d = record {
  fd = x;
  autoclose = d.autoclose;
  preserve_fd = d.preserve_fd;
  shd_alive = true;
  calls = d.calls;
}

abbrev shrd_of : Handle → Shrd
shrd_of h = record { autoclose = h.autoclose; preserve_fd = h.preserve_fd; calls = h.calls }

-- base_socket(bool autoclose_handle, socket_t handle)
unfoldable pub first_object : Bool → ℤ → Family
first_object autoclose x = record { objects = x ∷ []; shrd = shrd_of (construct autoclose x) }

-- The operations on the object `x` that has `pre` and `post` beside it: the copy constructor,
-- set_preserved, fd_close and the destructor.
module _ (pre : List ℤ) (x : ℤ) (post : List ℤ) (d : Shrd) where
  unfoldable pub copy_object : Family
  copy_object = record { objects = pre ++ x ∷ x ∷ post; shrd = d }

  unfoldable pub preserve_object : Family
  preserve_object = record { objects = pre ++ x ∷ post; shrd = shrd_of (set_preserved (seen x d)) }

  unfoldable close_object : Family
  close_object =
      let h = socket_close (seen x d) in record { objects = pre ++ h.fd ∷ post; shrd = shrd_of h }

  unfoldable pub destroy_object : Family
  destroy_object = record {
    objects = pre ++ post;
    shrd = shrd_of (destroy_socket (null (pre ++ post)) (seen x d));
  }

-- Copies, destructions and set_preserved, in any order.
pub data Step : Family → Family → Type 0 where
  copies :
      (pre : List ℤ) (x : ℤ) (post : List ℤ) (d : Shrd)
      → Step (record { objects = pre ++ x ∷ post; shrd = d }) (copy_object pre x post d)
  preserves :
      (pre : List ℤ) (x : ℤ) (post : List ℤ) (d : Shrd)
      → Step (record { objects = pre ++ x ∷ post; shrd = d }) (preserve_object pre x post d)
  destroys :
      (pre : List ℤ) (x : ℤ) (post : List ℤ) (d : Shrd)
      → Step (record { objects = pre ++ x ∷ post; shrd = d }) (destroy_object pre x post d)

pub data Reach (s : Family) : Family → Type 0 where
  here : Reach s s
  next : {t u : Family} → Reach s t → Step t u → Reach s u

-- Whether a step, or any step on the way, was a set_preserved.
unfoldable asks : {s t : Family} → Step s t → Bool
asks (copies pre x post d) = false
asks (preserves pre x post d) = true
asks (destroys pre x post d) = false

unfoldable pub asked : {s t : Family} → Reach s t → Bool
unfolding asks
asked here = false
asked (next r step) = asks step || asked r

module _ (fd : ℤ) where
  abbrev owed : Family → List Call
  owed s = if null s.objects then farewell s.shrd.preserve_fd fd else []

  -- All objects have the descriptor, and nothing was called while one of them was alive.
  abbrev IsSound : Family → Type 0
  IsSound s = Only fd s.objects × (s.shrd.autoclose ≡ true) × (s.shrd.calls ≡ owed s)

  owed-alive :
      (pre post : List ℤ) (x : ℤ) (d : Shrd)
      → owed (record { objects = pre ++ x ∷ post; shrd = d }) ≡ []
  owed-alive pre post x d =
      ap (λ b. if b then farewell d.preserve_fd fd else []) (null-middle pre post x)

  destroy-shrd :
      (last : Bool) (h : Handle)
      → ((destroy_socket last h).autoclose ≡ h.autoclose)
        × ((destroy_socket last h).preserve_fd ≡ h.preserve_fd)
  unfolding destroy_socket
  destroy-shrd last h = ground arith

  Step-IsSound : {s t : Family} → eqb fd invalid_handle ≡ false → Step s t → IsSound s → IsSound t
  unfolding copy_object preserve_object destroy_object set_preserved
  Step-IsSound v (copies pre x post d) (o, a, c) =
      let (e, r) = Only-split fd pre post x o in
      (
        Only-join fd pre (x ∷ post) x e o,
        a,
        c ∙ owed-alive pre post x d ∙ sym (owed-alive pre (x ∷ post) x d),
      )
  Step-IsSound v (preserves pre x post d) (o, a, c) = (
    o,
    a,
    c ∙ owed-alive pre post x d ∙ sym (owed-alive pre post x (shrd_of (set_preserved (seen x d)))),
  )
  Step-IsSound v (destroys pre x post d) (o, a, c) =
      let (e, r) = Only-split fd pre post x o in
      let last = null (pre ++ post) in
      let (same_close, same_preserve) = destroy-shrd last (seen x d) in
      (
        r,
        same_close ∙ a,
        destroy_socket-calls last (seen x d) a (ap (λ y. eqb y invalid_handle) e ∙ v)
              (c ∙ owed-alive pre post x d)
            ∙ ap (λ y. if last then farewell d.preserve_fd y else []) e
            ∙ ap (λ b. if last then farewell b fd else []) (sym same_preserve),
      )

  Step-preserve_fd :
      {s t : Family} (step : Step s t) → t.shrd.preserve_fd ≡ (asks step || s.shrd.preserve_fd)
  unfolding asks copy_object preserve_object destroy_object set_preserved
  Step-preserve_fd (copies pre x post d) = refl
  Step-preserve_fd (preserves pre x post d) = refl
  Step-preserve_fd (destroys pre x post d) = (destroy-shrd (null (pre ++ post)) (seen x d)).1

  Reach-preserve_fd :
      {t : Family} (r : Reach (first_object true fd) t) → t.shrd.preserve_fd ≡ asked r
  unfolding asked first_object construct
  Reach-preserve_fd here = refl
  Reach-preserve_fd (next r step) =
      Step-preserve_fd step ∙ ap (λ b. asks step || b) (Reach-preserve_fd r)

  Reach-IsSound :
      {t : Family} → eqb fd invalid_handle ≡ false → Reach (first_object true fd) t → IsSound t
  unfolding first_object construct
  Reach-IsSound v here = ((refl, tt), refl, refl)
  Reach-IsSound v (next r step) = Step-IsSound v step (Reach-IsSound v r)

-- A socket on a valid descriptor that is closed automatically, copied, preserved and destroyed in
-- any order: no call is made while an object is left, and the destructor of the last one closes
-- the descriptor once, with a shutdown before that unless set_preserved was called on any of the
-- objects on the way.
pub Reach-closes :
    (fd : ℤ) {t : Family}
    → eqb fd invalid_handle ≡ false
    → (r : Reach (first_object true fd) t)
    → t.shrd.calls ≡ (if null t.objects then farewell (asked r) fd else [])
Reach-closes fd {t} v r =
    (Reach-IsSound fd v r).2
    ∙ ap (λ b. if null t.objects then farewell b fd else []) (Reach-preserve_fd fd r)

-- An object that is closed while a copy of it is left does not tell the copy: once both are
-- destroyed, the descriptor, by then free for others, has been shut down and closed twice.
close_object-twice :
    (fd : ℤ) (d : Shrd)
    → d.autoclose ≡ true
    → d.calls ≡ []
    → eqb fd invalid_handle ≡ false
    → let closed = (close_object [] fd (fd ∷ []) d).shrd in
      (destroy_object [] fd [] (destroy_object [] invalid_handle (fd ∷ []) closed).shrd).shrd.calls
      ≡ farewell d.preserve_fd fd ++ farewell d.preserve_fd fd
unfolding close_object destroy_object socket_close destroy_socket
close_object-twice fd d a c v = ground arith
