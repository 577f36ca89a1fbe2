-- ===== src/Tests/Starting.antt =====
-- The start of a server, its end, and that of the shared memory.
use libdynpm.Base.{◌≡◌, refl, [], some, none, true, false, if◌then◌else◌, ◌==◌}
use libdynpm.Text.Chars.{same_text}
use libdynpm.Network.Call.{returned}
use libdynpm.Network.Server.Startup.{bound, in_use, Surroundings, Globals}
use libdynpm.Shm.Lifecycle.{
  Node, Blocks, process_attach, detach, manager_path, process_attach-detach,
}

-- The ports 7000 and 7001 are in use.
abbrev env : Surroundings
env = record {
  socket = some 4;
  bind = λ p. if p == 7000 then in_use else if p == 7001 then in_use else bound;
  thread_made = true;
  thread_named = true;
}

-- The globals when the program starts
abbrev fresh : Globals
fresh = record {
  server_socket = none;
  sockets = [];
  sin_port = none;
  handler = none;
  head = [];
  registration_locked = false;
  pool = record { work_units = []; thread_data = []; terminate = λ i. false };
}

abbrev blocks : Blocks
blocks = record { manager_fd = 5; process_fd = 6; manager_maps = true; process_maps = true }

-- A process that has attached itself, and detaches itself.
abbrev attached : Node
attached = record { names = λ path. true; manager_control = true; process_control = true }

abbrev left : Node
left = record attached {
  names = λ path. if same_text path (manager_path 3 1) then false else true;
  manager_control = false;
}

attached_leaves : detach 3 1 attached ≡ returned left
unfolding detach
attached_leaves = refl

-- Another process, which comes after that.
abbrev late : Node
late = record left { process_control = false }

process_attach-detach_example :
    process_attach blocks 3 1 4343 late ≡ returned (record late { manager_control = true }, 5)
process_attach-detach_example =
    process_attach-detach blocks 3 1 4343 attached left late attached_leaves refl refl
