-- ===== src/Server/Clients.antt =====
-- The client objects of a server (socket++/handler/socket_server.hpp): the copies of one client
-- share a reference count, and each has a pointer to the data that the user attached. They are
-- put in threads, also by socket++/handler/socket_server.cpp. An object is the last one if no
-- other with the same count is left; the count itself belongs to a third-party header.
pub mod Data
pub mod Launch
use socketxx.Common.{
  ℕ, Bool, true, false, Option, none, some, List, [], ◌∷◌, ◌++◌, length, null, if◌then◌else◌,
}
use socketxx.Common.Int.{ℤ}
use socketxx.Common.Outcome.{Exec, Outcome, ok, halts, undefined, pure, halt, ◌>>=◌}
use socketxx.Server.{ServerOs, M, wait_new_client}

-- All data made for a client by `new`, and the positions of those deleted.
pub record Attached (D : Type 0) : Type 0 where
  pub made : List D
  pub deleted : List ℕ

-- The `_d` of every object that is alive, in any thread.
pub record Clients (D : Type 0) : Type 0 where
  pub objects : List ℕ
  pub attached : Attached D

-- _client(socket, addr): with data of its own
unfoldable pub new_client : {D : Type 0} → D → Clients D
new_client initial = record {
  objects = 0 ∷ [];
  attached = record { made = initial ∷ []; deleted = [] };
}

-- The operations on the object with the data `d` that has `pre` and `post` beside it.
module _ {D : Type 0} (pre : List ℕ) (d : ℕ) (post : List ℕ) (a : Attached D) where
  -- _client(other)
  unfoldable pub copy_client : Clients D
  copy_client = record { objects = pre ++ d ∷ d ∷ post; attached = a }

  -- _client(other, data): a copy that counts with the others, and has data of its own
  unfoldable client_with_data : D → Clients D
  client_with_data value = record {
    objects = pre ++ d ∷ length a.made ∷ post;
    attached = record a { made = a.made ++ value ∷ [] };
  }

  -- ~_client
  unfoldable pub destroy_client : Clients D
  destroy_client = record {
    objects = pre ++ post;
    attached = record a { deleted = a.deleted ++ (if null (pre ++ post) then d ∷ [] else []) };
  }

  -- put_client_threaded: the copy that the new thread is given
  unfoldable pub put_client_threaded : Clients D
  unfolding copy_client
  put_client_threaded = copy_client

-- _client(server_thread_data): a copy of the object that was handed over, which is deleted
unfoldable pub client_of_thread : {D : Type 0} → List ℕ → ℕ → List ℕ → Attached D → Clients D
unfolding copy_client destroy_client
client_of_thread pre d post a = destroy_client pre d (d ∷ post) (copy_client pre d post a).attached

-- wait_new_client_threaded, once a client is accepted: `c` has a copy of the attached data, the
-- temporary object is destroyed, and a copy of `c` is put in a thread. `none` is NULL.
unfoldable pub put_accepted : {D S : Type 0} → D → Option D → S → Outcome (Clients D) × S
unfolding new_client client_with_data destroy_client put_client_threaded
put_accepted initial none s = (halts undefined, s)
put_accepted initial (some value) s =
    let c = client_with_data [] 0 [] (new_client initial).attached value in
    let alone = destroy_client [] 0 (1 ∷ []) c.attached in
    (ok (put_client_threaded [] 1 [] alone.attached), s)

-- wait_new_client_threaded; `initial` is what `new _data` makes.
unfoldable pub wait_new_client_threaded :
    {D : Type 0} (os : ServerOs) → D → Option D → M os (Clients D)
unfolding put_accepted
wait_new_client_threaded os initial attached_data =
    wait_new_client os >>= λ cli. put_accepted initial attached_data
