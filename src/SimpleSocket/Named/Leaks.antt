-- ===== src/SimpleSocket/Named/Leaks.antt =====
-- What receiving into a temporary file leaves open, and on the disk.
use socketxx.Common.{
  ℕ, zero, suc, ◌+◌, ◌%◌, ◌≡◌, ◌∙◌, refl, ap, ◌==◌, Bool, true, false, Option, none, some, List,
  ◌∷◌, ◌++◌, ltb, if◌then◌else◌, inl, inr, Bool-cases,
}
use socketxx.Common.Int.{ℤ, pos, ltb_ℤ}
use socketxx.Common.Keeps.{Keeps, Keeps-bind}
use socketxx.Common.Outcome.{
  Outcome, ok, throws, halts, Exec, resume, pure, throw, error, ◌>>=◌, ◌>>◌,
}
use socketxx.BaseIo.{Os}
use socketxx.SimpleSocket.{i_int}
use socketxx.SimpleSocket.Keeping.{i_int-Keeps, i_bin-Keeps}
use socketxx.SimpleSocket.File.{Receiver}
use socketxx.SimpleSocket.File.Keeping.{KeepsFile, read_to_file-Keeps}
use socketxx.SimpleSocket.Transfer.{on_os, same_hash}
use socketxx.SimpleSocket.Named.{
  Files, create_temp_file, temp_loop, attempt, temp_opened, patched, eexist, guarded, close_fd,
  i_content, i_file_temp, into_temp_file,
}
use socketxx.UnixSocket.{c_str}

-- The descriptors that are open and the names of the files, the last first. A call that makes a
-- file adds its descriptor and its name; close() of the last descriptor takes that away, and
-- unlink() of the last name takes that away; nothing else that is called here changes them.
pub record HoldsFiles (os : Os) (i_fixsize : ℕ → Exec os.World (List ℕ)) (rcv : Receiver os)
    (x : Files os.World) : Type 0 where
  pub held : os.World → List ℤ × List (List ℕ)
  pub reading_keeps : (n : ℕ) → Keeps held (i_fixsize n)
  pub storing_keeps : (file_w : ℤ) → KeepsFile os file_w rcv held
  pub product_keeps : (w : os.World) → held (x.product w).1 ≡ held w
  pub open_new_some :
      (name : List ℕ) (fd : ℤ) (w w' : os.World)
      → x.open_new name w ≡ (some fd, w')
      → held w' ≡ (fd ∷ (held w).0, name ∷ (held w).1)
  pub open_new_none :
      (name : List ℕ) (w w' : os.World) → x.open_new name w ≡ (none, w') → held w' ≡ held w
  pub close_last :
      (fd : ℤ) (fds : List ℤ) (names : List (List ℕ)) (w : os.World)
      → held w ≡ (fd ∷ fds, names)
      → held (x.close fd w) ≡ (fds, names)
  pub unlink_last :
      (name : List ℕ) (fds : List ℤ) (names : List (List ℕ)) (w : os.World)
      → held w ≡ (fds, name ∷ names)
      → held (x.unlink name w) ≡ (fds, names)

module _ {os : Os} {i_fixsize : ℕ → Exec os.World (List ℕ)} {rcv : Receiver os} {x : Files os.World}
    (κ : HoldsFiles os i_fixsize rcv x) where
  abbrev Held : Type 0
  Held = List ℤ × List (List ℕ)

  -- The descriptor and the name that are returned are the only new ones, and nothing is new where
  -- an exception is thrown.
  abbrev Grown : Held → Outcome (ℤ × List ℕ) × os.World → Type 0
  Grown c (ok (fd, name), w) = κ.held w ≡ (fd ∷ c.0, name ∷ c.1)
  Grown c (throws e, w) = κ.held w ≡ c
  Grown c (halts h, w) = Unit {0}

  -- No descriptor is new; the file whose name is returned is, and none where an exception is
  -- thrown.
  abbrev pub Left : Held → Outcome (List ℕ) × os.World → Type 0
  Left c (ok name, w) = κ.held w ≡ (c.0, name ∷ c.1)
  Left c (throws e, w) = κ.held w ≡ c
  Left c (halts h, w) = Unit {0}

  temp_opened-Grown :
      (again : Exec os.World (ℤ × List ℕ)) (name : List ℕ) (c : Held) (before : os.World)
      (r : Option ℤ) (w : os.World)
      → ((w : os.World) → κ.held w ≡ c → Grown c (again w))
      → κ.held before ≡ c
      → x.open_new name before ≡ (r, w)
      → Grown c (temp_opened x again name (r, w))
  unfolding temp_opened
  temp_opened-Grown again name c before (some fd) w k h e =
      κ.open_new_some name fd before w e ∙ ap (λ (d : Held). (fd ∷ d.0, name ∷ d.1)) h
  temp_opened-Grown again name c before none w k h e =
      let same = κ.open_new_none name before w e ∙ h in
      elim (Bool-cases (x.errno w == eexist)) [
        | inl taken ↦ rw taken (k w same)
        | inr failed ↦ rw failed same
      ]

  attempt-Grown :
      (again : Exec os.World (ℤ × List ℕ)) (name : List ℕ) (c : Held) (rand : ℤ) (w : os.World)
      → ((w : os.World) → κ.held w ≡ c → Grown c (again w))
      → κ.held w ≡ c
      → Grown c (attempt x again name (rand, w))
  unfolding attempt
  attempt-Grown again name c rand w k h = elim (Bool-cases (ltb_ℤ rand (pos 1))) [
    | inl skipped ↦ rw skipped (k w h)
    | inr done ↦
        let temp = name ++ 45 ∷ c_str (patched x.isalnum 6 (x.l64a rand w)) in
        let r = x.open_new temp w in rw done (temp_opened-Grown again temp c w r.0 r.1 k h refl)
  ]

  again-Grown :
      (more : Bool) (next : Exec os.World (ℤ × List ℕ)) (c : Held) (w : os.World)
      → Grown c (next w)
      → κ.held w ≡ c
      → Grown c (
          (if more then next else throw (error "failed to create temp file : too many attempts")) w)
  again-Grown true next c w k h = k
  again-Grown false next c w k h = h

  temp_loop-Grown :
      (fuel i : ℕ) (name : List ℕ) (c : Held) (w : os.World)
      → κ.held w ≡ c
      → Grown c (temp_loop x fuel i name w)
  unfolding temp_loop
  temp_loop-Grown zero i name c w h = tt
  temp_loop-Grown (suc fuel) i name c w h =
      let r = x.product w in
      let more = ltb ((i + 1) % 65536) 65535 in
      let next = temp_loop x fuel ((i + 1) % 65536) name in
      let again =
        if more then next else throw (error "failed to create temp file : too many attempts") in
      attempt-Grown again name c r.0 r.1
        (λ w' h'.
          again-Grown more next c w' (temp_loop-Grown fuel ((i + 1) % 65536) name c w' h') h')
        (κ.product_keeps w ∙ h)

  -- What follows the content: clean up and throw again, or close the file.
  finished-Left :
      (temp : ℤ × List ℕ) (c : Held) (r : Outcome (Unit {0})) (w w' : os.World)
      → κ.held w' ≡ (temp.0 ∷ c.0, temp.1 ∷ c.1)
      → Left c (
          ((λ _. guarded x (r, w') (λ s. x.unlink temp.1 (x.close temp.0 s)))
              >> close_fd x temp.0
              >> pure temp.1)
            w)
  unfolding close_fd
  finished-Left temp c (ok _) w w' h = κ.close_last temp.0 c.0 (temp.1 ∷ c.1) w' h
  finished-Left temp c (throws e) w w' h =
      κ.unlink_last temp.1 c.0 c.1 (x.close temp.0 w') (κ.close_last temp.0 c.0 (temp.1 ∷ c.1) w' h)
  finished-Left temp c (halts e) w w' h = tt

  module _ (o : List ℕ → Exec os.World (Unit {0})) (big : Bool) (page : ℕ)
      (content : ℤ → ℕ → ℕ → Exec os.World (Unit {0}))
      (h : (file_w : ℤ) (sz : ℕ) → Keeps κ.held (content file_w sz page)) where
    -- The rest of the method, once the file is made or not.
    made-Left :
        (sz : ℕ) (c : Held) (r : Outcome (ℤ × List ℕ)) (w : os.World)
        → Grown c (r, w)
        → Left c (
            resume r
              (λ temp.
                (λ s.
                  guarded x (content temp.0 sz page s) (λ s. x.unlink temp.1 (x.close temp.0 s)))
                >> close_fd x temp.0
                >> pure temp.1)
              w)
    made-Left sz c (ok temp) w g =
        let r = content temp.0 sz page w in finished-Left temp c r.0 w r.1 ((h temp.0 sz).at w ∙ g)
    made-Left sz c (throws e) w g = g
    made-Left sz c (halts e) w g = tt

    sized-Left :
        (fuel garbage : ℕ) (name : List ℕ) (c : Held) (r : Outcome ℕ) (w : os.World)
        → κ.held w ≡ c
        → Left c (
            resume r
              (λ sz. create_temp_file x fuel garbage name >>= λ temp.
                (λ s.
                  guarded x (content temp.0 sz page s) (λ s. x.unlink temp.1 (x.close temp.0 s)))
                >> close_fd x temp.0
                >> pure temp.1)
              w)
    unfolding create_temp_file
    sized-Left fuel garbage name c (ok sz) w g =
        let r = temp_loop x fuel garbage name w in
        made-Left sz c r.0 r.1 (temp_loop-Grown fuel garbage name c w g)
    sized-Left fuel garbage name c (throws e) w g = g
    sized-Left fuel garbage name c (halts e) w g = tt

    -- Whatever is received into the file, if it leaves these alone.
    pub into_temp_file-Left :
        (fuel garbage : ℕ) (name : List ℕ) (w : os.World)
        → Left (κ.held w) (into_temp_file os o i_fixsize big rcv x content fuel garbage name page w)
    unfolding into_temp_file
    into_temp_file-Left fuel garbage name w =
        let r = i_int (on_os os o i_fixsize) big 8 w in
        sized-Left fuel garbage name (κ.held w) r.0 r.1
          ((i_int-Keeps (on_os os o i_fixsize) κ.held κ.reading_keeps big 8).at w)

  module _ (o : List ℕ → Exec os.World (Unit {0})) (big : Bool) (page : ℕ) where
    i_content-Keeps :
        (file_w : ℤ) (sz : ℕ) → Keeps κ.held (i_content os o i_fixsize big rcv x file_w sz page)
    unfolding i_content same_hash
    i_content-Keeps file_w sz =
        Keeps-bind κ.held _ (read_to_file-Keeps (κ.storing_keeps file_w) sz page) (λ _.
          Keeps-bind κ.held _ (i_bin-Keeps (on_os os o i_fixsize) κ.held κ.reading_keeps big)
            (λ h. record { at = λ w. refl }))

    pub i_file_temp-Left :
        (fuel garbage : ℕ) (name : List ℕ) (w : os.World)
        → Left (κ.held w) (i_file_temp os o i_fixsize big rcv x fuel garbage name page w)
    unfolding i_file_temp
    i_file_temp-Left fuel garbage name w =
        into_temp_file-Left o big page (i_content os o i_fixsize big rcv x) i_content-Keeps fuel
          garbage name w
