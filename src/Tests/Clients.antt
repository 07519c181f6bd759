-- ===== src/Tests/Clients.antt =====
-- The objects of an accepted client.
use socketxx.Common.{ℕ, ◌≡◌, [], ◌∷◌}
use socketxx.Server.Clients.{
  Clients, Attached, new_client, put_client_threaded, client_of_thread, destroy_client,
}
use socketxx.Server.Clients.Data
use socketxx.Server.Clients.Data.{hands_over, takes_over, destroys, Reach-deletes}

abbrev one_datum : Attached ℕ
one_datum = record { made = 5 ∷ []; deleted = [] }

-- A client is put in a thread; the first object goes, and the thread takes over and ends.
abbrev ended : Clients ℕ
ended = destroy_client [] 0 [] (client_of_thread [] 0 [] one_datum).attached

Reach-deletes_example : (ended.attached.made ≡ 5 ∷ []) × (ended.attached.deleted ≡ 0 ∷ [])
unfolding new_client put_client_threaded client_of_thread destroy_client
Reach-deletes_example = Reach-deletes 5 (
    Data.next
      (Data.next
        (Data.next (Data.next Data.here (hands_over [] 0 [] one_datum))
          (destroys [] 0 (0 ∷ []) one_datum))
        (takes_over [] 0 [] one_datum))
      (destroys [] 0 [] one_datum))
