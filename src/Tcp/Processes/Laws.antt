-- ===== src/Tcp/Processes/Laws.antt =====
-- Reaping never adds a client.
use computer_networking_tamu.Base.{ℕ, ◌≤◌, ◌≡◌, refl, List, [], ◌∷◌, length, arith}
use computer_networking_tamu.Tcp.Processes.{
  Wait, none_finished, wait_failed, finished, erase_client, reap_clients,
}

length-erase_client :
    (pid : ℕ) (clients : List ℕ) → length (erase_client pid clients) ≤ length clients
unfolding erase_client
length-erase_client pid [] = omega arith
length-erase_client pid (c ∷ clients) = ground (arith, length-erase_client pid clients)

pub length-reap_clients :
    (waits : List Wait) (clients : List ℕ) → length (reap_clients waits clients) ≤ length clients
unfolding reap_clients
length-reap_clients waits [] = omega arith
length-reap_clients [] (c ∷ clients) = omega arith
length-reap_clients (none_finished ∷ waits) (c ∷ clients) = omega arith
length-reap_clients (wait_failed ∷ waits) (c ∷ clients) = omega arith
length-reap_clients (finished pid ∷ waits) (c ∷ clients) = omega (
  arith,
  length-reap_clients waits (erase_client pid (c ∷ clients)),
  length-erase_client pid (c ∷ clients),
)

pub reap_clients-nil : (waits : List Wait) → reap_clients waits [] ≡ []
unfolding reap_clients
reap_clients-nil waits = refl
