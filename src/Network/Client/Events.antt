-- ===== src/Network/Client/Events.antt =====
-- `_client_on_error` of src/network/client.c: the end of a connection to a server, and its beginning.
use libdynpm.Base.{
  ℕ, ◌-◌, ◌≡◌, ◌≢◌, ◌∙◌, refl, true, Bool, Option, none, some, inl, inr, get_elem?, set,
  if◌then◌else◌, arith, Bool-cases, get_elem?-set_self, get_elem?-set_ne, lt_of_get_elem?,
}
use libdynpm.Network.Call.{Call, returned, ◌>>=◌}
use libdynpm.Network.Client.Table.{Client, ServerConnection, disconnect}
use libdynpm.Network.Client.Laws.{IsClient, disconnect_lem, replace-IsClient}

-- The flags in `what` that the callback acts on
pub record What : Type 0 where
  pub eof : Bool
  pub connected : Bool

abbrev pub mark_connected : ℕ → Client → Option (Option ServerConnection) → Client
mark_connected i c (some (some s)) = record c {
  table = set c.table i (some (record s { connected = true }));
}
mark_connected i c _ = c

-- `_client_on_error` at the connection of the index `i`, whose own `mutex`, which some of its
-- branches take and free again, is free. A connection that has left the table is marked outside of
-- it.
unfoldable pub client_on_error : What → ℕ → Client → Call Client
client_on_error what i c =
    if what.eof
    then (do (c', _) ← disconnect i c; returned c')
    else if what.connected
    then returned (mark_connected i c (get_elem? c.table i))
    else returned c

-- What the callback leaves at the index of a connection.
abbrev pub after_event : What → ServerConnection → Option ServerConnection
after_event what s =
    if what.eof then none else some (if what.connected then record s { connected = true } else s)

-- At an entry in use of a well-formed client the callback returns: the end of the stream clears the
-- entry, a connection that is made marks it, any other event leaves it; no other entry changes, and the
-- client is well formed.
pub client_on_error_lem :
    (what : What) (c : Client) (i : ℕ) (s : ServerConnection)
    → IsClient c
    → get_elem? c.table i ≡ some (some s)
    → (c' : Client) × (client_on_error what i c ≡ returned c')
      × (get_elem? c'.table i ≡ some (after_event what s))
      × ((j : ℕ) → i ≢ j → get_elem? c'.table j ≡ get_elem? c.table j)
      × IsClient c'
unfolding client_on_error
client_on_error_lem what c i s v e =
    let inside = lt_of_get_elem? c.table i e in
    elim (Bool-cases what.eof) [
      | inl ends ↦
          let (gone, v') = disconnect_lem c i s v e in
          (
            record c { table = set c.table i none; count = c.count - 1 },
            ground (arith, gone),
            get_elem?-set_self c.table i none inside ∙ ground arith,
            (λ j ne. get_elem?-set_ne c.table none ne),
            v',
          )
      | inr goes_on ↦ elim (Bool-cases what.connected) [
        | inl made ↦
            let t : ServerConnection = record s { connected = true } in
            (
              record c { table = set c.table i (some t) },
              ground arith,
              get_elem?-set_self c.table i (some t) inside ∙ ground arith,
              (λ j ne. get_elem?-set_ne c.table (some t) ne),
              replace-IsClient c i s t v e refl,
            )
        | inr other ↦ (c, ground arith, e ∙ ground arith, (λ j ne. refl), v)
      ]
    ]
