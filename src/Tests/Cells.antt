-- ===== src/Tests/Cells.antt =====
-- The queue as linked cells.
use libdynpm.Base.{
  ◌≡◌, refl, arith, [], ◌∷◌, ◌++◌, List, some, none, true, false, ◌==◌, if◌then◌else◌,
}
use libdynpm.Text.Buffer.{Buffer}
use libdynpm.Network.Queue.{enqueue, progress}
use libdynpm.Network.Queue.Cells.{
  Sender, Cells, enqueue_cells, callback_write, callback_pop, sender_start, sender_link,
}
use libdynpm.Network.Queue.Chains.{Represents}
use libdynpm.Network.Queue.Refinement.{enqueue_cells_lem, callback_cells_lem, enqueue_loses}

-- Two messages, at the addresses 10 and 20.
abbrev two_cells : Cells
two_cells = record {
  next = λ a. if a == 10 then some 20 else none;
  buffer = λ a. if a == 10 then 1 ∷ [] else 2 ∷ [];
  head = some 10;
  written = [];
  sender = Sender.idle;
  wrote = false;
}

abbrev two_messages : List Buffer
two_messages = (1 ∷ []) ∷ (2 ∷ []) ∷ []

two_cells-Represents : Represents two_cells (10 ∷ 20 ∷ []) two_messages
two_cells-Represents = record {
  chain = (refl, (refl, refl));
  contents = refl;
  quiet = refl;
  whole = refl;
}

enqueue_cells_lem_example :
    Represents
      (enqueue_cells 5 30 (3 ∷ []) two_cells)
      ((10 ∷ 20 ∷ []) ++ 30 ∷ [])
      (enqueue (3 ∷ []) two_messages)
    × ((enqueue_cells 5 30 (3 ∷ []) two_cells).written ≡ two_cells.written)
enqueue_cells_lem_example =
    enqueue_cells_lem 5 30 (3 ∷ []) two_cells (10 ∷ 20 ∷ []) two_messages two_cells-Represents
      ((λ e. omega arith), ((λ e. omega arith), tt)) (omega arith)

callback_cells_lem_example :
    Represents
      (callback_pop (callback_write two_cells))
      (20 ∷ [])
      (progress true (record { messages = two_messages; written = [] })).messages
    × ((callback_pop (callback_write two_cells)).written
        ≡ (progress true (record { messages = two_messages; written = [] })).written)
callback_cells_lem_example =
    callback_cells_lem two_cells 10 (20 ∷ []) (1 ∷ []) ((2 ∷ []) ∷ []) two_cells-Represents

-- One message, at the address 10.
abbrev one_cell : Cells
one_cell = record two_cells { next = λ a. none }

one_cell-Represents : Represents one_cell (10 ∷ []) ((1 ∷ []) ∷ [])
one_cell-Represents = record { chain = (refl, refl); contents = refl; quiet = refl; whole = refl }

enqueue_loses_example :
    Represents
      (sender_link (callback_pop (callback_write (sender_start 30 (3 ∷ []) one_cell))))
      []
      []
    × ((sender_link (callback_pop (callback_write (sender_start 30 (3 ∷ []) one_cell)))).written
        ≡ one_cell.written ++ (1 ∷ []) ∷ [])
enqueue_loses_example =
    enqueue_loses one_cell 10 30 (1 ∷ []) (3 ∷ []) one_cell-Represents ((λ e. omega arith), tt)
