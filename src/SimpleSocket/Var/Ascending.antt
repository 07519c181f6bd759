-- ===== src/SimpleSocket/Var/Ascending.antt =====
-- Entries that arrive in key order are inserted at the end of the map.
use socketxx.Common.{ℕ, ◌≡◌, refl, ap, true, false, List, [], ◌∷◌, arith}
use socketxx.SimpleSocket.Var.{Polyvar, Fields, end, field, insert, str_lt}

abbrev pub append_fields : Fields → Fields → Fields
append_fields end n = n
append_fields (field k v m) n = field k v (append_fields m n)

-- All keys of the map are below `k`; `k` is below all keys.
abbrev pub AllBelow : Fields → List ℕ → Type 0
AllBelow end k = Unit {0}
AllBelow (field j v m) k = (str_lt j k ≡ true) × AllBelow m k

abbrev pub AllAbove : List ℕ → Fields → Type 0
AllAbove k end = Unit {0}
AllAbove k (field j v m) = (str_lt k j ≡ true) × AllAbove k m

-- The keys of a std::map.
abbrev pub IsAscending : Fields → Type 0
IsAscending end = Unit {0}
IsAscending (field k v m) = AllAbove k m × IsAscending m

abbrev pub Precedes : Fields → Fields → Type 0
Precedes m end = Unit {0}
Precedes m (field k v n) = AllBelow m k × Precedes m n

str_lt_asymm : (s t : List ℕ) → str_lt s t ≡ true → str_lt t s ≡ false
str_lt_asymm [] [] h = refl
str_lt_asymm [] (b ∷ t) h = refl
str_lt_asymm (a ∷ s) [] h = cc
str_lt_asymm (a ∷ s) (b ∷ t) h = ground (arith, str_lt_asymm s t)

pub insert_last :
    (k : List ℕ) (v : Polyvar) (m : Fields)
    → AllBelow m k
    → insert k v m ≡ append_fields m (field k v end)
insert_last k v end h = refl
insert_last k v (field j w m) h =
    rw (str_lt_asymm j k h.0) (rw h.0 (ap (field j w) (insert_last k v m h.1)))

pub append_fields-end : (m : Fields) → append_fields m end ≡ m
append_fields-end end = refl
append_fields-end (field k v m) = ap (field k v) (append_fields-end m)

pub append_fields_assoc :
    (m n p : Fields) → append_fields (append_fields m n) p ≡ append_fields m (append_fields n p)
append_fields_assoc end n p = refl
append_fields_assoc (field k v m) n p = ap (field k v) (append_fields_assoc m n p)

AllBelow-append :
    (m : Fields) (k j : List ℕ) (v : Polyvar)
    → AllBelow m j
    → str_lt k j ≡ true
    → AllBelow (append_fields m (field k v end)) j
AllBelow-append end k j v h e = (e, tt)
AllBelow-append (field i w m) k j v h e = (h.0, AllBelow-append m k j v h.1 e)

pub Precedes-append :
    (m n : Fields) (k : List ℕ) (v : Polyvar)
    → Precedes m n
    → AllAbove k n
    → Precedes (append_fields m (field k v end)) n
Precedes-append m end k v h a = tt
Precedes-append m (field j w n) k v h a =
    (AllBelow-append m k j v h.0 a.0, Precedes-append m n k v h.1 a.1)

pub Precedes-end : (n : Fields) → Precedes end n
Precedes-end end = tt
Precedes-end (field k v n) = (tt, Precedes-end n)
