-- ===== src/Network/Delivery.antt =====
-- Messages from a client's `dynpm_send_message_to_server` to the work queue of its server.
use libdynpm.Base.{
  ℕ, ◌*◌, ◌≡◌, ◌∙◌, refl, ap, sym, true, false, Bool, [], ◌∷◌, ◌++◌, List, All, some, append_assoc,
  append-nil, get_elem?, length, if◌then◌else◌,
}
use libdynpm.Text.Chars.{Bytes}
use libdynpm.Text.Outcome.{done}
use libdynpm.Text.Buffer.{Buffer}
use libdynpm.Protocol.Frame.{max_message_size, IsMessageBuffer}
use libdynpm.Protocol.Header.{Header, IsHeader, MessageType, code}
use libdynpm.Network.Call.{Call, returned, ◌>>=◌}
use libdynpm.Network.Message.{Message}
use libdynpm.Network.Message.ReadBack.{ClientSends, ReadsBack}
use libdynpm.Network.Queue.{run}
use libdynpm.Network.Queue.Draining.{drains}
use libdynpm.Network.Receive.{concat, server_on_read}
use libdynpm.Network.Receive.Blocks.{IsAligned}
use libdynpm.Network.Wire.{wire_lem}
use libdynpm.Network.Client.{Client, ServerConnection, send_message}
use libdynpm.Network.Client.Laws.{IsClient}
use libdynpm.Network.Client.Sending.{send_message_lem}

-- One call of `dynpm_send_message_to_server`, with what its `malloc` returns.
pub record Parcel : Type 0 where
  pub memory : Buffer
  pub header : Header
  pub message : Message

pub record IsParcel (p : Parcel) : Type 0 where
  pub type : MessageType
  pub words : IsHeader p.header
  pub is_type : p.header.message_type ≡ code type
  pub size : IsMessageBuffer p.memory
  pub sends : ClientSends type p.message

-- The calls one after the other, as long as they return 0.
unfoldable pub send_all : List Parcel → ℕ → Client → Call (Client × Bool)
send_all [] i c = returned (c, true)
send_all (p ∷ parcels) i c = do
  (c', sent) ← send_message p.memory p.header p.message i c
  let rest = send_all parcels i c'
  if sent then rest else returned (c', false)

-- The buffers read back as the messages of the parcels, in order.
abbrev pub AreReadBack : List Parcel → List Buffer → Type 0
AreReadBack [] [] = Unit
AreReadBack (p ∷ parcels) (b ∷ messages) = ReadsBack p.message b × AreReadBack parcels messages
AreReadBack _ _ = ⊥

-- Calls that all send leave their messages behind those of the entry, in order.
send_all_lem :
    (parcels : List Parcel) (c : Client) (i : ℕ) (s : ServerConnection)
    → IsClient c
    → get_elem? c.table i ≡ some (some s)
    → All IsParcel parcels
    → (c' : Client) × (bs : List Buffer) × (send_all parcels i c ≡ returned (c', true))
      × (get_elem? c'.table i ≡ some (some (record s { messages = s.messages ++ bs })))
      × IsClient c'
      × AreReadBack parcels bs
      × All IsMessageBuffer bs
unfolding send_all
send_all_lem [] c i s v e all = (
  c,
  [],
  refl,
  e ∙ ap (λ ms. some (some (record s { messages = ms }))) (sym (append-nil s.messages)),
  v,
  tt,
  tt,
)
send_all_lem (p ∷ parcels) c i s v e (one, all) =
    let (c₁, b, sent, put, kept, v₁, reads, size) =
      send_message_lem p.memory p.header one.type p.message c i s v e one.words one.is_type one.size
        one.sends in
    let (c', bs, rest, entry, v', read, sizes) =
      send_all_lem parcels c₁ i (record s { messages = s.messages ++ b ∷ [] }) v₁ put all in
    (
      c',
      b ∷ bs,
      rw (sent, rest),
      entry
          ∙ ap (λ ms. some (some (record s { messages = ms })))
              (append_assoc s.messages (b ∷ []) bs),
      v',
      (reads, read),
      (size, sizes),
    )

-- Messages sent one after the other on an entry in use of a well-formed client, with nothing
-- waiting before, each of a type that the client sends other than a resource offer, with the
-- structure of that type, fields that its format carries, a header of that type that holds words,
-- and memory of the message size (and the variable of the writer's loop at 0, where a process
-- manager is registered): each call returns 0. After as many write callbacks as messages wait, the
-- bytes go over a network that keeps their order and delivers whole messages in chunks that do not
-- cross the end of a message. The callback that gets them, in blocks of the message size and with
-- the static count at 0, gives the work queue of the server exactly the messages that waited, one
-- for each call and in order, and its reader reads each back as the message of the call.
pub messages_delivered :
    (network : Bytes → List Bytes) (fresh : ℕ → Buffer) (parcels : List Parcel) (c : Client) (i : ℕ)
    (s : ServerConnection)
    → ((w : Bytes) → concat (network w) ≡ w)
    → ((w : Bytes) (n : ℕ) → length w ≡ n * max_message_size → IsAligned 0 (network w))
    → ((k : ℕ) → IsMessageBuffer (fresh k))
    → IsClient c
    → get_elem? c.table i ≡ some (some s)
    → s.messages ≡ []
    → All IsParcel parcels
    → (c' : Client) × (messages : List Buffer) × (send_all parcels i c ≡ returned (c', true))
      × (get_elem? c'.table i ≡ some (some (record s { messages = messages })))
      × (server_on_read fresh
            (network (
              concat
                (run
                  (drains (length messages))
                  (record { messages = messages; written = [] })).written))
            0
          ≡ done (messages, 0))
      × AreReadBack parcels messages
messages_delivered network fresh parcels c i s keeps whole sizes v e none_waits all =
    let (c', bs, sent, entry, v', read, full) = send_all_lem parcels c i s v e all in
    (
      c',
      bs,
      sent,
      entry ∙ ap (λ ms. some (some (record s { messages = ms ++ bs }))) none_waits,
      wire_lem network fresh keeps whole sizes bs full,
      read,
    )
