-- ===== src/Network/Server/Closing.antt =====
-- What the end of a client's connection does to the connections to servers that it is the parent of.
use libdynpm.Base.{ℕ, ◌+◌, ◌≤◌, ◌<◌, ◌≡◌, true, false, Option, none, some, get_elem?, ◌⊎◌}
use libdynpm.Network.Call.{Call, returned}
use libdynpm.Network.Client.{Client, ServerConnection}
use libdynpm.Network.Client.Laws.{IsClient}
use libdynpm.Network.Server.Registry.{Server, is_child_of}

-- The entries of the table from `lo` on and below `hi` are not children of the connection at `a`,
-- and the others are those of `old`.
pub record IsClosed (a lo hi : ℕ) (old new : Client) : Type 0 where
  pub well : IsClient new
  pub closed :
      (j : ℕ) (e : Option ServerConnection)
      → lo ≤ j
      → j < hi
      → get_elem? new.table j ≡ some e
      → is_child_of a e ≡ false
  pub kept :
      (j : ℕ) (e : Option ServerConnection)
      → get_elem? old.table j ≡ some e
      → is_child_of a e ≡ false
      → get_elem? new.table j ≡ some e
  pub below : (j : ℕ) → j < lo → get_elem? new.table j ≡ get_elem? old.table j

-- The result of the loop over the table with `rounds` rounds left.
abbrev Loop : ℕ → ℕ → ℕ → Client → Call Client → Type 0
Loop a rounds index c r = (c' : Client) × (r ≡ returned c') × IsClosed a index (index + rounds) c c'

-- One round at an entry: a child is cleared, and anything else is left.
abbrev Cleared : ℕ → ℕ → Client → Client → Option ServerConnection → Type 0
Cleared a index c c₁ e =
    ((is_child_of a e ≡ true) × (get_elem? c₁.table index ≡ some none))
    ⊎ ((is_child_of a e ≡ false) × (get_elem? c₁.table index ≡ some e))
