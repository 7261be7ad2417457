-- ===== src/Tcp/Processes.antt =====
-- What libtcp and libudp share in src/server.cpp: the processes of the clients, as their server
-- sees them through fork and waitpid.
pub mod Laws
use computer_networking_tamu.Base.{
  ℕ, suc, List, [], ◌∷◌, Option, none, some, Bool, true, false, ◌==◌, if◌then◌else◌, get_elem?,
}

-- What fork returns. Where a std::thread is created in place of a process, fork_failed stands for the
-- std::system_error of its constructor, and the others for a thread that runs.
pub data Fork : Type 0 where
  fork_failed in_child : Fork
  in_parent : ℕ → Fork

-- What waitpid(0, nullptr, WNOHANG) returns: no process has finished, an error, or a process.
pub data Wait : Type 0 where
  none_finished wait_failed : Wait
  finished : ℕ → Wait

-- `std::remove` and `erase` of a process.
unfoldable pub erase_client : ℕ → List ℕ → List ℕ
erase_client pid [] = []
erase_client pid (c ∷ clients) =
    let rest = erase_client pid clients in if c == pid then rest else c ∷ rest

-- reap_clients: as long as there are clients, ask for one that has finished. The list says what
-- the calls of waitpid return; behind its end no process has finished.
unfoldable pub reap_clients : List Wait → List ℕ → List ℕ
unfolding erase_client
reap_clients waits [] = []
reap_clients [] (c ∷ clients) = c ∷ clients
reap_clients (none_finished ∷ waits) (c ∷ clients) = c ∷ clients
reap_clients (wait_failed ∷ waits) (c ∷ clients) = c ∷ clients
reap_clients (finished pid ∷ waits) (c ∷ clients) =
    reap_clients waits (erase_client pid (c ∷ clients))

pub data HandleMode : Type 0 where
  round_robin random : HandleMode
