-- ===== src/Server/Clients/Launch.antt =====
-- `_server_cli_new_thread` (socket++/handler/socket_server.cpp) and `put_client_threaded`
-- (socket++/handler/socket_server.hpp), where pthread_create may fail: its result is ignored.
use socketxx.Common.{◌≡◌, refl, ◌∙◌, ℕ, Option, List, [], ◌∷◌, ◌++◌, append-nil}
use socketxx.Server.Clients.{
  Attached, Clients, new_client, copy_client, destroy_client, put_client_threaded,
}

module _ {W : Type 0} (pthread_create : W → Option ℕ × W) where
  -- The thread that is returned; `none` is a variable that nothing was stored in.
  unfoldable server_cli_new_thread : W → Option ℕ × W
  server_cli_new_thread w = pthread_create w

  -- The copy is there whether a thread was made for it or not.
  unfoldable put_client_in_thread :
      {D : Type 0} → List ℕ → ℕ → List ℕ → Attached D → W → Option ℕ × (Clients D × W)
  unfolding server_cli_new_thread
  put_client_in_thread pre d post a w =
      let r = server_cli_new_thread w in (r.0, (put_client_threaded pre d post a, r.1))

-- What the threads that do run do with the objects of a client, beside a copy that no thread took
-- over.
data Beside {D : Type 0} (lost : ℕ) (s : Clients D) : Clients D → Type 0 where
  here : Beside lost s s
  copies :
      (pre : List ℕ) (d : ℕ) (post : List ℕ) (a : Attached D)
      → Beside lost s (record { objects = lost ∷ (pre ++ d ∷ post); attached = a })
      → Beside lost s (copy_client (lost ∷ pre) d post a)
  destroys :
      (pre : List ℕ) (d : ℕ) (post : List ℕ) (a : Attached D)
      → Beside lost s (record { objects = lost ∷ (pre ++ d ∷ post); attached = a })
      → Beside lost s (destroy_client (lost ∷ pre) d post a)

kept :
    {D : Type 0} (lost : ℕ) {s t : Clients D}
    → Beside lost s t
    → t.attached.deleted ≡ s.attached.deleted
unfolding copy_client destroy_client
kept lost here = refl
kept lost (copies pre d post a b) = kept lost b
kept lost (destroys pre d post a b) = append-nil a.deleted ∙ kept lost b

-- As long as the copy that a thread is given is not taken over, and so for ever where pthread_create
-- fails, nothing of the client is deleted, whatever is done with the other objects.
put_client_in_thread-keeps :
    {D W : Type 0} (pthread_create : W → Option ℕ × W) (value : D) (w : W) (t : Clients D)
    → Beside 0 (put_client_in_thread pthread_create [] 0 [] (new_client value).attached w).1.0 t
    → t.attached.deleted ≡ []
unfolding put_client_in_thread put_client_threaded copy_client new_client
put_client_in_thread-keeps pthread_create value w t b = kept 0 b
