-- ===== src/Shm/Trace.antt =====
-- Sequences of operations of the manager and the processes (src/shm/shm.c), with what was sent and
-- received.
use libdynpm.Base.{ℕ, ◌<◌, ◌≡◌, ◌≢◌, ◌⊎◌, List, [], ◌∷◌, ◌++◌, some, length, take}
use libdynpm.Text.Chars.{Bytes}
use libdynpm.Shm.World.{
  u32, previous, update, World, Code, manager_write, process_read, set_malleability_mode,
}
use libdynpm.Shm.Modes.{get_malleability_mode}

-- One operation of the manager, or of a process by its index. A payload is written whole.
pub data Action : Type 0 where
  write : Bytes → Action
  read : ℕ → Action
  set_mode : ℕ → ℕ → Action
  poll : Action

-- The world, with the payloads written so far and those that each process has read.
pub record Trace : Type 0 where
  pub world : World
  pub sent : List Bytes
  pub received : ℕ → List Bytes

abbrev pub note_sent : Code → Bytes → List Bytes → List Bytes
note_sent Code.ok p sent = sent ++ p ∷ []
note_sent _ p sent = sent

-- A read of no bytes brings nothing new.
abbrev pub note_received : Bytes → List Bytes → List Bytes
note_received [] got = got
note_received (c ∷ p) got = got ++ (c ∷ p) ∷ []

unfoldable pub act : Action → Trace → Trace
act (write p) t =
    let (w, code) = manager_write (some p) (length p) t.world in
    record t { world = w; sent = note_sent code p t.sent }
act (read i) t =
    let (w, p, code) = process_read i t.world in
    record t { world = w; received = update t.received i (note_received p (t.received i)) }
act (set_mode i mode) t = record t { world = set_malleability_mode i mode t.world }
act poll t = record t { world = (get_malleability_mode t.world).0 }

-- The actions, the head of the list first.
unfoldable pub run : List Action → Trace → Trace
run [] t = t
run (a ∷ actions) t = run actions (act a t)

-- The payload in shared memory
abbrev pub current : World → Bytes
current w = take w.manager.payload_bytes w.shm_payload

-- The process has read all, or all but the payload that is in shared memory.
abbrev pub IsServed : Trace → ℕ → Type 0
IsServed t i =
    (((t.world.processes i).read_count ≡ t.world.manager.write_count) × (t.received i ≡ t.sent))
    ⊎ (((t.world.processes i).read_count ≡ previous t.world.manager.write_count)
        × (current t.world ≢ [])
        × (t.received i ++ current t.world ∷ [] ≡ t.sent))

pub record Inv (n : ℕ) (t : Trace) : Type 0 where
  pub count : t.world.manager.process_count ≡ n
  pub word : t.world.manager.write_count < u32
  pub shared : t.world.shm_manager ≡ t.world.manager
  pub same : (i : ℕ) → t.world.shm_process i ≡ t.world.processes i
  pub served : (i : ℕ) → i < n → IsServed t i
