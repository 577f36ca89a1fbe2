-- ===== src/Network/Client/Start.antt =====
-- The client after `dynpm_client_init`.
use libdynpm.Base.{
  ℕ, zero, suc, ◌≡◌, refl, sym, false, Option, none, some, get_elem?, replicate, length-replicate,
}
use libdynpm.Network.Client.Table.{max_server_connections, ServerConnection, Client, client_init}
use libdynpm.Network.Client.Entries.{occupied-replicate}
use libdynpm.Network.Client.Laws.{IsClient}

absent-replicate :
    (n i : ℕ) (s : ServerConnection) → ¬ (get_elem? (replicate n none) i ≡ some (some s))
absent-replicate zero i s e = cc e
absent-replicate (suc n) zero s e = cc e
absent-replicate (suc n) (suc i) s e = absent-replicate n i s e

-- The first call of `dynpm_client_init` makes a well-formed client.
pub client_init-IsClient : (c : Client) → c.initialized ≡ false → IsClient (client_init c)
unfolding client_init
client_init-IsClient c fresh = rw fresh (record {
  ready = refl;
  size = length-replicate {A = Option ServerConnection} max_server_connections none;
  counted = sym (occupied-replicate max_server_connections);
  indexed = λ i s e. absurd (absent-replicate max_server_connections i s e);
  free = refl;
})
