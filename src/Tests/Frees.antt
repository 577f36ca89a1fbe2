-- ===== src/Tests/Frees.antt =====
-- The memory of messages that are sent.
use libdynpm.Base.{
  ℕ, ◌≡◌, refl, true, false, Bool, Bool-cases, inl, inr, [], ◌∷◌, List, All, Option, none, some,
  get_elem?, replicate, ◌==◌, ◌&&◌, if◌then◌else◌, arith,
}
use libdynpm.Text.Outcome.{done, ◌>>=◌}
use libdynpm.Memory.{Heap}
use libdynpm.Memory.Blocks.{Differs, AreBlocks, OnlyFreed}
use libdynpm.Protocol.Header.{MessageType}
use libdynpm.Protocol.Free.Structs.{Pointers, three, manager}
use libdynpm.Protocol.Free.{free_reallocation_start_msg}
use libdynpm.Protocol.Free.Reading.{reallocation_start_memory, read_then_free, start}
use libdynpm.Network.Message.Ownership.{
  client_send_frees, server_send_frees, client_blocks, server_blocks, AreApart, manages, starts,
}
use libdynpm.Network.Message.Freed.{client_send_frees_lem, server_send_frees_lem}
use libdynpm.Network.Call.{returned}
use libdynpm.Network.Client.Callbacks.{Line}
use libdynpm.Network.Client.Thread.{connection_thread, connection_thread_lem}
use libdynpm.Tests.Clients.{entry}
use libdynpm.Tbon.Freeing.{free_tbon_vertex, IsVertexAt, free_tbon_vertex_lem}

-- The test of `AreBlocks`
abbrev differ : ℕ → List ℕ → Bool
differ p [] = true
differ p (q ∷ qs) = let rest = differ p qs in if q == p then false else rest

abbrev is_live : Option (List ℕ) → Bool
is_live none = false
is_live (some words) = true

abbrev are_blocks : List ℕ → Heap → Bool
are_blocks [] h = true
are_blocks (p ∷ ps) h = is_live (h p) && (differ p ps && are_blocks ps h)

differ-Differs : (p : ℕ) (qs : List ℕ) → differ p qs ≡ true → All (Differs p) qs
differ-Differs p [] e = tt
differ-Differs p (q ∷ qs) e = elim (Bool-cases (q == p)) [
  | inl same ↦ (let clash : false ≡ true = (rw same at e) in cc clash)
  | inr other ↦ ((λ ne e'. ground arith), differ-Differs p qs (rw other at e))
]

live_words : (o : Option (List ℕ)) → is_live o ≡ true → (words : List ℕ) × (o ≡ some words)
live_words none e = cc e
live_words (some words) e = (words, refl)

and_both : (a b : Bool) → (a && b) ≡ true → (a ≡ true) × (b ≡ true)
and_both true b e = (refl, e)
and_both false b e = cc e

are_blocks-AreBlocks : (ps : List ℕ) (h : Heap) → are_blocks ps h ≡ true → AreBlocks ps h
are_blocks-AreBlocks [] h e = tt
are_blocks-AreBlocks (p ∷ ps) h e =
    let (live, rest) = and_both (is_live (h p)) (differ p ps && are_blocks ps h) e in
    let (apart, blocks) = and_both (differ p ps) (are_blocks ps h) rest in
    ((λ ne. live_words (h p) live), differ-Differs p ps apart, are_blocks-AreBlocks ps h blocks)

-- The blocks of a process manager with two applications at 1, a header at 8 and a buffer at 9
abbrev table : List (Option (List ℕ))
table =
    none
    ∷ some (2 ∷ 2 ∷ 3 ∷ [])
    ∷ some []
    ∷ some (4 ∷ 5 ∷ [])
    ∷ some (6 ∷ [])
    ∷ some (7 ∷ [])
    ∷ some []
    ∷ some []
    ∷ some []
    ∷ some []
    ∷ []

abbrev or_none : Option (Option (List ℕ)) → Option (List ℕ)
or_none none = none
or_none (some block) = block

abbrev heap : Heap
heap = λ a. or_none (get_elem? table a)

abbrev slurm : Pointers
slurm = manager 2 3 (record { address = 4; nodes = 6 } ∷ record { address = 5; nodes = 7 } ∷ [])

slurm-AreApart : AreApart 8 1 9 slurm heap
slurm-AreApart = record {
  header_not_null = omega arith;
  not_null = omega arith;
  structure = refl;
  array = (refl, (inl (omega arith, refl), (inl (omega arith, refl), tt)));
  blocks = are_blocks-AreBlocks (2 ∷ 6 ∷ 4 ∷ 7 ∷ 5 ∷ 3 ∷ 1 ∷ 8 ∷ 9 ∷ []) heap refl;
}

client_send_frees_lem_example :
    (h' : Heap) × (client_send_frees (some MessageType.register_process_manager) 8 1 9 heap
      ≡ done h')
    × OnlyFreed (client_blocks true slurm 8 1 9) heap h'
client_send_frees_lem_example =
    client_send_frees_lem (some MessageType.register_process_manager) slurm true 8 1 9 heap manages
      slurm-AreApart

-- A reallocation at 1 whose second list of nodes is `NULL`
abbrev moved : Heap
moved = λ a. if a == 1 then some (2 ∷ 0 ∷ 3 ∷ []) else heap a

abbrev shrink : Pointers
shrink = three 2 0 3

shrink-AreApart : AreApart 8 1 9 shrink moved
shrink-AreApart = record {
  header_not_null = omega arith;
  not_null = omega arith;
  structure = refl;
  array = tt;
  blocks = (
    (λ ne. ([], refl)),
    differ-Differs 2 (0 ∷ 3 ∷ 1 ∷ 8 ∷ 9 ∷ []) refl,
    (
      (λ ne. absurd (ne refl)),
      differ-Differs 0 (3 ∷ 1 ∷ 8 ∷ 9 ∷ []) refl,
      are_blocks-AreBlocks (3 ∷ 1 ∷ 8 ∷ 9 ∷ []) moved refl,
    ),
  );
}

server_send_frees_lem_example :
    (h' : Heap) × (server_send_frees (some MessageType.reallocation_start) 8 1 9 moved ≡ done h')
    × OnlyFreed (server_blocks true shrink 8 1 9) moved h'
server_send_frees_lem_example =
    server_send_frees_lem (some MessageType.reallocation_start) shrink true 8 1 9 moved starts
      shrink-AreApart

-- A connection to a server at 1
abbrev connected : Heap
connected = λ a. if a == 1 then some (2 ∷ 3 ∷ []) else heap a

abbrev busy : Line
busy = record {
  connection = record entry { messages = (4 ∷ []) ∷ (5 ∷ []) ∷ [] };
  mutex_locked = false;
  written = [];
  timers = 0;
}

connection_thread_lem_example :
    (l' : Line) × (h' : Heap) × (connection_thread (replicate 3 true) 1 (some busy) connected
      ≡ returned (some l', h'))
    × (l'.connection.messages ≡ [])
    × (l'.written ≡ (4 ∷ []) ∷ (5 ∷ []) ∷ [])
    × OnlyFreed (2 ∷ 3 ∷ 1 ∷ []) connected h'
connection_thread_lem_example =
    connection_thread_lem 3 1 2 3 busy connected refl (omega arith) refl
      (are_blocks-AreBlocks (2 ∷ 3 ∷ 1 ∷ []) connected refl)

-- A vertex at 1 with one child, whose host name is at 9 and whose payload is at 8
abbrev family : Heap
family = λ a.
    if a == 1
    then some (2 ∷ 3 ∷ 4 ∷ 5 ∷ 6 ∷ 1 ∷ 7 ∷ [])
    else if a == 5
    then some (9 ∷ [])
    else if a == 7
    then some (8 ∷ [])
    else heap a

family-IsVertexAt : IsVertexAt 1 (2 ∷ 3 ∷ 4 ∷ 5 ∷ 6 ∷ []) (8 ∷ []) [] 7 family
family-IsVertexAt = record {
  not_null = omega arith;
  has_reports = omega arith;
  structure = refl;
  array = refl;
  blocks = are_blocks-AreBlocks (2 ∷ 3 ∷ 4 ∷ 5 ∷ 6 ∷ 8 ∷ 7 ∷ 1 ∷ []) family refl;
}

free_tbon_vertex_lem_example :
    (h' : Heap) × (free_tbon_vertex 1 family ≡ done h')
    × OnlyFreed (2 ∷ 3 ∷ 4 ∷ 5 ∷ 6 ∷ 8 ∷ 7 ∷ 1 ∷ []) family h'
free_tbon_vertex_lem_example =
    free_tbon_vertex_lem 1 2 3 4 5 6 7 (8 ∷ []) [] family family-IsVertexAt

-- The texts of a reallocation that is read
abbrev shrunk : Pointers
shrunk = three 22 23 24

read_then_free_example :
    (h' : Heap) × ((reallocation_start_memory 20 21 22 23 24 heap >>= λ g.
    free_reallocation_start_msg 21 g)
      ≡ done h')
    × ((b : ℕ) → h' b ≡ heap b)
read_then_free_example =
    read_then_free (λ header msg. reallocation_start_memory header msg 22 23 24)
      free_reallocation_start_msg 20 21 shrunk heap start
      (
        omega arith,
        refl,
        (omega arith, (omega arith, (omega arith, (omega arith, tt)))),
        (
          omega arith,
          refl,
          (omega arith, (omega arith, (omega arith, tt))),
          (
            omega arith,
            refl,
            (omega arith, (omega arith, tt)),
            (omega arith, refl, (omega arith, tt), (omega arith, refl, tt, tt)),
          ),
        ),
      )
