-- ===== src/SimpleSocket/Var.antt =====
-- `o_var` and `i_var` (socket++/io/simple_socket.hpp). The class xif::polyvar is a third-party
-- type: `Polyvar` has the alternatives that the two functions switch on, and the numbers of its
-- enumerators are a parameter, `TypeCodes`. A std::map is the list of its entries in key order.
pub mod Ascending
pub mod Writing
pub mod Reading
pub mod Truncated
use socketxx.Common.{
  ℕ, zero, suc, ◌%◌, ◌<◌, ◌≡◌, Bool, true, false, Option, none, some, List, [], ◌∷◌, ltb, ◌==◌,
  if◌then◌else◌,
}
use socketxx.Common.Int.{pos, eqb, signed_char}
use socketxx.Common.Outcome.{Exec, pure, halt, undefined, no_fuel, ◌>>=◌, ◌>>◌}
use socketxx.Transport.{Transport}
use socketxx.SimpleSocket.{
  o_char, i_char, o_bool, i_bool, o_int, i_int, o_float, i_float, o_str, i_str,
}

mutual
  pub data Polyvar : Type 0 where
    void : Polyvar
    str : List ℕ → Polyvar
    float : ℕ → Polyvar
    int : ℕ → Polyvar
    char : ℕ → Polyvar
    bool : Bool → Polyvar
    vector : Items → Polyvar
    table : Fields → Polyvar

  pub data Items : Type 0 where
    nil : Items
    cons : Polyvar → Items → Items

  pub data Fields : Type 0 where
    end : Fields
    field : List ℕ → Polyvar → Fields → Fields

pub data Kind : Type 0 where
  is_void is_str is_float is_int is_char is_bool is_list is_map : Kind

abbrev pub kind : Polyvar → Kind
kind void = is_void
kind (str s) = is_str
kind (float f) = is_float
kind (int i) = is_int
kind (char c) = is_char
kind (bool b) = is_bool
kind (vector v) = is_list
kind (table m) = is_map

-- The enumerators have distinct values, which fit a signed char.
pub record TypeCodes : Type 0 where
  pub code : Kind → ℕ
  pub code_lt : (k : Kind) → code k < 128
  pub code_injective : (j k : Kind) → code j ≡ code k → j ≡ k

abbrev pub size_items : Items → ℕ
size_items nil = 0
size_items (cons v vs) = suc (size_items vs)

abbrev pub size_fields : Fields → ℕ
size_fields end = 0
size_fields (field k v m) = suc (size_fields m)

-- operator< of std::string, by unsigned bytes.
abbrev pub str_lt : List ℕ → List ℕ → Bool
str_lt [] [] = false
str_lt [] (b ∷ bs) = true
str_lt (a ∷ as') [] = false
str_lt (a ∷ as') (b ∷ bs) =
    let rest = str_lt as' bs in if ltb a b then true else if a == b then rest else false

-- std::map::insert keeps the keys in order, and an entry that is there.
abbrev pub insert : List ℕ → Polyvar → Fields → Fields
insert k v end = field k v end
insert k v (field j w m) =
    let rest = insert k v m in
    if str_lt k j
    then field k v (field j w m)
    else if str_lt j k
    then field j w rest
    else field j w m

module _ (t : Transport) (big : Bool) (codes : TypeCodes) where
  unfoldable pub o_type : Kind → Exec t.State (Unit {0})
  o_type k = o_char t big (codes.code k % 256)

  unfoldable mutual
    pub o_var : Polyvar → Exec t.State (Unit {0})
    o_var void = do o_type is_void; pure tt
    o_var (str s) = do o_type is_str; o_str t big s
    o_var (float f) = do o_type is_float; o_float t big f
    o_var (int i) = do o_type is_int; o_int t big 8 i
    o_var (char c) = do o_type is_char; o_char t big c
    o_var (bool b) = do o_type is_bool; o_bool t big b
    o_var (vector v) = do o_type is_list; o_int t big 8 (size_items v); o_items v
    o_var (table m) = do o_type is_map; o_int t big 8 (size_fields m); o_fields m

    pub o_items : Items → Exec t.State (Unit {0})
    o_items nil = pure tt
    o_items (cons v vs) = do o_var v; o_items vs

    pub o_fields : Fields → Exec t.State (Unit {0})
    o_fields end = pure tt
    o_fields (field k v m) = do o_str t big k; o_var v; o_fields m

  -- The switch on the char read: the enumerators in the source's order.
  unfoldable pub kind_of : ℕ → Option Kind
  kind_of c =
      let t = signed_char c in
      if eqb t (pos (codes.code is_void))
      then some is_void
      else if eqb t (pos (codes.code is_str))
      then some is_str
      else if eqb t (pos (codes.code is_float))
      then some is_float
      else if eqb t (pos (codes.code is_int))
      then some is_int
      else if eqb t (pos (codes.code is_char))
      then some is_char
      else if eqb t (pos (codes.code is_bool))
      then some is_bool
      else if eqb t (pos (codes.code is_list))
      then some is_list
      else if eqb t (pos (codes.code is_map))
      then some is_map
      else none

  unfoldable pub i_items : Exec t.State Polyvar → ℕ → Exec t.State Items
  i_items one zero = pure nil
  i_items one (suc n) = do v ← one; vs ← i_items one n; pure (cons v vs)

  -- The two arguments of the pair constructor are evaluated in an order that the compiler chooses.
  unfoldable pub i_entry : Bool → Exec t.State Polyvar → Exec t.State (List ℕ × Polyvar)
  i_entry true one = do k ← i_str t big; v ← one; pure (k, v)
  i_entry false one = do v ← one; k ← i_str t big; pure (k, v)

  unfoldable pub i_fields : Bool → Exec t.State Polyvar → ℕ → Fields → Exec t.State Fields
  i_fields key_first one zero m = pure m
  i_fields key_first one (suc n) m = do
    kv ← i_entry key_first one
    i_fields key_first one n (insert kv.0 kv.1 m)

  -- Past the switch the function ends without a value.
  unfoldable pub i_alternative : Bool → Exec t.State Polyvar → Option Kind → Exec t.State Polyvar
  i_alternative key_first one none = halt undefined
  i_alternative key_first one (some is_void) = pure void
  i_alternative key_first one (some is_str) = do s ← i_str t big; pure (str s)
  i_alternative key_first one (some is_float) = do f ← i_float t big; pure (float f)
  i_alternative key_first one (some is_int) = do i ← i_int t big 8; pure (int i)
  i_alternative key_first one (some is_char) = do c ← i_char t big; pure (char c)
  i_alternative key_first one (some is_bool) = do b ← i_bool t big; pure (bool b)
  i_alternative key_first one (some is_list) = do
    n ← i_int t big 8
    v ← i_items one n
    pure (vector v)
  i_alternative key_first one (some is_map) = do
    sz ← i_int t big 8
    m ← i_fields key_first one sz end
    pure (table m)

  -- The fuel bounds how deep vectors and tables are nested.
  unfoldable pub i_var : Bool → ℕ → Exec t.State Polyvar
  i_var key_first zero = halt no_fuel
  i_var key_first (suc fuel) = do
    c ← i_char t big
    i_alternative key_first (i_var key_first fuel) (kind_of c)
