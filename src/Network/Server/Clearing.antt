-- ===== src/Network/Server/Clearing.antt =====
-- `dynpm_clear_client_connections` of src/network/server.c, with the blocks that it frees.
use libdynpm.Base.{
  ℕ, ◌≡◌, ◌≢◌, refl, true, false, Bool, [], ◌∷◌, List, ◌==◌, ==_iff, if◌then◌else◌, ◌⊎◌, inl, inr,
}
use libdynpm.Network.Call.{Call, returned, crashed}
use libdynpm.Network.Server.Registry.{Server}

-- The loop, with the connections left in the list. `LIST_FOREACH` reads the link of a connection after
-- the body has removed it from the list and freed it; `freed` says which blocks are freed.
unfoldable pub clear_from : (ℕ → Bool) → List ℕ → Server → Call Server
clear_from freed [] s = returned s
clear_from freed (a ∷ rest) s =
    let freed' = λ (b : ℕ). if a == b then true else freed b in
    let next = clear_from freed' rest (record s { head = rest }) in
    elim (freed' a) [ true ↦ crashed | false ↦ next ]

-- `dynpm_clear_client_connections`
unfoldable pub clear_client_connections : (ℕ → Bool) → Server → Call Server
unfolding clear_from
clear_client_connections freed s = clear_from freed s.head s

-- Clearing the connections reads a freed block wherever there is a connection, and changes nothing
-- where there is none.
pub clear_client_connections_lem :
    (freed : ℕ → Bool) (s : Server)
    → ((s.head ≡ []) × (clear_client_connections freed s ≡ returned s))
      ⊎ ((s.head ≢ []) × (clear_client_connections freed s ≡ crashed))
unfolding clear_client_connections
clear_client_connections_lem freed s = on_head s.head
  where
    on_head :
        (head : List ℕ)
        → ((head ≡ []) × (clear_from freed head s ≡ returned s))
          ⊎ ((head ≢ []) × (clear_from freed head s ≡ crashed))
    on_head [] = inl (refl, refl)
    on_head (a ∷ rest) =
        inr ((λ e. cc e), let same : (a == a) ≡ true = (==_iff a a).1 refl in rw (clear_from, same))
