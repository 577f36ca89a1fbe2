-- ===== src/Network/Queue.antt =====
-- The queue of outgoing messages of a connection: `_dynpm_enqueue_send_buffer` of src/network/client.c,
-- and the write callbacks of client.c and server.c, each running as a whole.
use libdynpm.Base.{
  ◌≡◌, refl, ◌∙◌, ap, sym, true, false, Bool, List, [], ◌∷◌, ◌++◌, append_assoc, append-nil,
}
use libdynpm.Text.Buffer.{Buffer}
pub mod Cells
pub mod Chains
pub mod Refinement
pub mod Draining

-- `_dynpm_enqueue_send_buffer`: the walk to the tail of the linked list. The code copies
-- `DYNPM_MAX_MESSAGE_SIZE` bytes of the buffer, that is the whole of one of the message size; a
-- shorter one would be read past its end.
unfoldable pub enqueue : Buffer → List Buffer → List Buffer
enqueue b [] = b ∷ []
enqueue b (m ∷ messages) = m ∷ enqueue b messages

-- A queue and what `bufferevent_write` has taken from it.
pub record Outbox : Type 0 where
  pub messages : List Buffer
  pub written : List Buffer

-- `_client_to_server_send_progress`, `_client_on_write`, `_server_to_client_send_progress` and
-- `_server_on_write`: the head is written, and taken off even if the write fails.
unfoldable pub flush : Bool → List Buffer → List Buffer → Outbox
flush ok [] written = record { messages = []; written = written }
flush true (m ∷ messages) written = record { messages = messages; written = written ++ m ∷ [] }
flush false (m ∷ messages) written = record { messages = messages; written = written }

unfoldable pub progress : Bool → Outbox → Outbox
unfolding flush
progress write_ok o = flush write_ok o.messages o.written

pub data Event : Type 0 where
  send : Buffer → Event
  drain : Event

-- The queue under a sequence of sends and callbacks whose writes succeed.
unfoldable pub run : List Event → Outbox → Outbox
run [] o = o
run (send b ∷ events) o = run events (record o { messages = enqueue b o.messages })
run (drain ∷ events) o = run events (progress true o)

-- The buffers sent, in order.
abbrev pub sends : List Event → List Buffer
sends [] = []
sends (send b ∷ events) = b ∷ sends events
sends (drain ∷ events) = sends events

pub enqueue-append : (b : Buffer) (messages : List Buffer) → enqueue b messages ≡ messages ++ b ∷ []
unfolding enqueue
enqueue-append b [] = refl
enqueue-append b (m ∷ messages) = ap (λ t. m ∷ t) (enqueue-append b messages)

flush_all :
    (messages written : List Buffer)
    → (flush true messages written).written ++ (flush true messages written).messages
      ≡ written ++ messages
unfolding flush
flush_all [] written = refl
flush_all (m ∷ messages) written = append_assoc written (m ∷ []) messages

-- For every sequence of sends and of callbacks whose writes succeed, what was written and what waits
-- is, in order, what was written before, what waited before and what was sent: the queue is first in
-- first out, and neither loses nor repeats a message.
pub run-sends :
    (events : List Event) (o : Outbox)
    → (run events o).written ++ (run events o).messages ≡ (o.written ++ o.messages) ++ sends events
unfolding run
run-sends [] o = sym (append-nil (o.written ++ o.messages))
run-sends (send b ∷ events) o =
    run-sends events (record o { messages = enqueue b o.messages })
    ∙ ap (λ m. (o.written ++ m) ++ sends events) (enqueue-append b o.messages)
    ∙ simp append_assoc
run-sends (drain ∷ events) o =
    run-sends events (progress true o)
    ∙ ap (λ m. m ++ sends events) (unfold progress in flush_all o.messages o.written)
