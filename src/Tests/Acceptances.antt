-- ===== src/Tests/Acceptances.antt =====
-- A server that accepts a connection.
use libdynpm.Base.{ℕ, ◌≡◌, refl, true, false, [], ◌∷◌, some}
use libdynpm.Text.Chars.{Bytes}
use libdynpm.Text.Buffer.{Buffer}
use libdynpm.Network.Call.{returned, crashed}
use libdynpm.Network.Pool.{Pool, indexes, takes, queue_round}
use libdynpm.Network.Client.Registering.{registered}
use libdynpm.Network.Server.{Server, find_client}
use libdynpm.Network.Server.Accepting.{
  WorkUnit, setup, message, run_unit, AcceptCalls, Accepts, event_handler, accepted_is_found,
}
use libdynpm.Tests.Data.{node7}
use libdynpm.Tests.Clients.{works, works-IsWorking}
use libdynpm.Tests.Servers.{server, own_handler}

abbrev calls : AcceptCalls
calls = record {
  allocated = true;
  accepted = some 7;
  flags_read = true;
  flags_set = true;
  evbase_made = true;
  buf_made = true;
  unit_allocated = true;
}

calls_accept : Accepts calls 7
calls_accept = record {
  allocated = refl;
  accepted = refl;
  flags_read = refl;
  flags_set = refl;
  evbase_made = refl;
  buf_made = refl;
  unit_allocated = refl;
}

abbrev idle : Pool WorkUnit
idle = record { work_units = []; thread_data = indexes 2; terminate = λ i. false }

-- What the client writes
abbrev hello_buffer : Buffer
hello_buffer = (registered 3 works works-IsWorking).0

accepted_is_found_example :
    (s₁ : Server) × (s₂ : Server) × (s₃ : Server) × (p₁ : Pool WorkUnit) × (event_handler calls 40
        (server, idle)
      ≡ returned (s₁, p₁))
    × (queue_round 1 p₁ ≡ (idle, takes (setup 40)))
    × (run_unit own_handler (setup 40) s₁ ≡ returned s₂)
    × (s₂.head ≡ 40 ∷ 20 ∷ 30 ∷ [])
    × ((host : Bytes) (pid : ℕ) → find_client host pid s₂ ≡ crashed)
    × (run_unit own_handler (message 40 hello_buffer) s₂ ≡ returned s₃)
    × (find_client node7 4242 s₃ ≡ returned (some 40))
accepted_is_found_example =
    accepted_is_found calls 7 40 1 3 server idle own_handler works hello_buffer calls_accept refl
      refl refl (registered 3 works works-IsWorking).2
