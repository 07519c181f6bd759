-- ===== src/Server/Clients/Data.antt =====
-- When the data attached to a client is deleted.
use mathlib.Core.Path.{subst}
use socketxx.Common.{
  ℕ, ◌≡◌, ◌∙◌, refl, sym, ap, true, Option, none, some, List, [], ◌∷◌, ◌++◌, null, null-middle,
  Only, Only-split, Only-join, if◌then◌else◌,
}
use socketxx.Common.Int.{ℤ}
use socketxx.Common.Outcome.{Outcome, ok, throws, halts, undefined}
use socketxx.Server.{ServerOs, Server, wait_new_client}
use socketxx.Server.Clients.{
  Attached, Clients, new_client, copy_client, destroy_client, put_client_threaded, client_of_thread,
  put_accepted, wait_new_client_threaded,
}

-- What the threads do with the objects of one client, in any order.
pub data Step {D : Type 0} : Clients D → Clients D → Type 0 where
  copies :
      (pre : List ℕ) (d : ℕ) (post : List ℕ) (a : Attached D)
      → Step (record { objects = pre ++ d ∷ post; attached = a }) (copy_client pre d post a)
  hands_over :
      (pre : List ℕ) (d : ℕ) (post : List ℕ) (a : Attached D)
      → Step (record { objects = pre ++ d ∷ post; attached = a }) (put_client_threaded pre d post a)
  takes_over :
      (pre : List ℕ) (d : ℕ) (post : List ℕ) (a : Attached D)
      → Step (record { objects = pre ++ d ∷ post; attached = a }) (client_of_thread pre d post a)
  destroys :
      (pre : List ℕ) (d : ℕ) (post : List ℕ) (a : Attached D)
      → Step (record { objects = pre ++ d ∷ post; attached = a }) (destroy_client pre d post a)

pub data Reach {D : Type 0} (s : Clients D) : Clients D → Type 0 where
  here : Reach s s
  next : {t u : Clients D} → Reach s t → Step t u → Reach s u

module _ {D : Type 0} (made : List D) (d : ℕ) where
  abbrev owed : List ℕ → List ℕ
  owed objects = if null objects then d ∷ [] else []

  -- All objects have the same data, which is there while one of them is alive.
  abbrev IsSound : Clients D → Type 0
  IsSound s = Only d s.objects × (s.attached.made ≡ made) × (s.attached.deleted ≡ owed s.objects)

  owed-alive : (pre post : List ℕ) (x : ℕ) → owed (pre ++ x ∷ post) ≡ []
  owed-alive pre post x = ap (λ b. if b then d ∷ [] else []) (null-middle pre post x)

  copy_client-IsSound :
      (pre : List ℕ) (x : ℕ) (post : List ℕ) (a : Attached D)
      → IsSound (record { objects = pre ++ x ∷ post; attached = a })
      → IsSound (copy_client pre x post a)
  unfolding copy_client
  copy_client-IsSound pre x post a (o, m, c) =
      let (e, r) = Only-split d pre post x o in
      (
        Only-join d pre (x ∷ post) x e o,
        m,
        c ∙ owed-alive pre post x ∙ sym (owed-alive pre (x ∷ post) x),
      )

  destroy_client-IsSound :
      (pre : List ℕ) (x : ℕ) (post : List ℕ) (a : Attached D)
      → IsSound (record { objects = pre ++ x ∷ post; attached = a })
      → IsSound (destroy_client pre x post a)
  unfolding destroy_client
  destroy_client-IsSound pre x post a (o, m, c) =
      let (e, r) = Only-split d pre post x o in
      (
        r,
        m,
        ap (λ l. l ++ (if null (pre ++ post) then x ∷ [] else [])) (c ∙ owed-alive pre post x)
            ∙ ap (λ y. if null (pre ++ post) then y ∷ [] else []) e,
      )

  Step-IsSound : {s t : Clients D} → Step s t → IsSound s → IsSound t
  unfolding copy_client put_client_threaded client_of_thread
  Step-IsSound (copies pre x post a) h = copy_client-IsSound pre x post a h
  Step-IsSound (hands_over pre x post a) h = copy_client-IsSound pre x post a h
  Step-IsSound (takes_over pre x post a) h =
      destroy_client-IsSound pre x (x ∷ post) (copy_client pre x post a).attached
        (copy_client-IsSound pre x post a h)
  Step-IsSound (destroys pre x post a) h = destroy_client-IsSound pre x post a h

  Reach-IsSound : {s t : Clients D} → Reach s t → IsSound s → IsSound t
  Reach-IsSound here h = h
  Reach-IsSound (next r step) h = Step-IsSound step (Reach-IsSound r h)

-- The objects of an accepted client, copied, put in threads, taken over there and destroyed in any
-- order: the data that came with the first one stays as it was made, nothing is deleted while an
-- object is left, and the last one deletes that data, once.
pub Reach-deletes :
    {D : Type 0} (value : D) {t : Clients D}
    → Reach (new_client value) t
    → (t.attached.made ≡ value ∷ [])
      × (t.attached.deleted ≡ (if null t.objects then 0 ∷ [] else []))
unfolding new_client
Reach-deletes value r =
    let (o, m, c) = Reach-IsSound (value ∷ []) 0 r ((refl, tt), refl, refl) in (m, c)

threaded-run :
    {D : Type 0} (os : ServerOs) (initial : D) (o : Option D) (cli : ℤ) (s s' : Server os.World)
    → wait_new_client os s ≡ (ok cli, s')
    → wait_new_client_threaded os initial o s ≡ put_accepted initial o s'
unfolding wait_new_client_threaded
threaded-run os initial o cli s s' e = rw e refl

returned : {A S : Type 0} → A → Outcome A × S → A
returned a (ok b, s) = b
returned a (throws e, s) = a
returned a (halts h, s) = a

-- Where a client is accepted for a thread. Without attached data, which is the default, a null
-- pointer is copied from. With attached data, the object that was made first leaves its own data
-- behind: however the client is used from then on, once no object is left only the attached data
-- has been deleted.
wait_new_client_threaded-leaks :
    {D : Type 0} (os : ServerOs) (initial value : D) (cli : ℤ) (s s' : Server os.World)
    (g t : Clients D)
    → wait_new_client os s ≡ (ok cli, s')
    → wait_new_client_threaded os initial (some value) s ≡ (ok g, s')
    → Reach g t
    → null t.objects ≡ true
    → (wait_new_client_threaded os initial none s ≡ (halts undefined, s'))
      × (t.attached.made ≡ initial ∷ value ∷ [])
      × (t.attached.deleted ≡ 1 ∷ [])
unfolding put_accepted returned
wait_new_client_threaded-leaks os initial value cli s s' g t e run r n =
    let same = ap (returned g) (sym (threaded-run os initial (some value) cli s s' e) ∙ run) in
    let (o, m, c) =
      Reach-IsSound (initial ∷ value ∷ []) 1 r
        (subst (IsSound (initial ∷ value ∷ []) 1) same ((refl, (refl, tt)), refl, refl)) in
    (threaded-run os initial none cli s s' e, m, c ∙ ap (λ b. if b then 1 ∷ [] else []) n)
