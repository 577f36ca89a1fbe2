-- ===== src/Network/Receive/Partial.antt =====
-- What `_server_on_read` of src/network/server.c makes of a message that comes in two callbacks.
use libdynpm.Base.{
  ℕ, ◌+◌, ◌≤◌, ◌<◌, ◌≡◌, ap, [], ◌∷◌, ◌++◌, List, lt→ltb, le→ltb_false, le→leb, lt→leb_false,
  length, length-drop, take, drop, append-nil, arith, some, none,
}
use libdynpm.Text.Chars.{Bytes}
use libdynpm.Text.Outcome.{done, fault}
use libdynpm.Text.Buffer.{Buffer, write}
use libdynpm.Protocol.Frame.{max_message_size, IsMessageBuffer}
use libdynpm.Network.Receive.Blocks.{empty_of_length, length-rest}
use libdynpm.Text.Splice.{write-append}
use libdynpm.Network.Receive.{server_read_loop, server_on_read, Callback, server_reads}

-- A callback that gets one chunk.
abbrev pub one_chunk : ℕ → (ℕ → Buffer) → Bytes → Callback
one_chunk a fresh c = record { connection = a; fresh = fresh; chunks = c ∷ [] }

short_of_room :
    (k : ℕ) (b : Buffer) (r : Bytes) → k + length r ≡ length b → write k r b ≡ some (take k b ++ r)
unfolding write
short_of_room k b r h =
    let over : length (drop (k + length r) b) ≡ 0 = omega (arith, length-drop (k + length r) b) in
    rw (
      le→leb (k + length r) (length b) (omega arith),
      empty_of_length (drop (k + length r) b) over,
      append-nil,
    )

write_first :
    (c : Bytes) (b : Buffer) → length c ≤ length b → write 0 c b ≡ some (c ++ drop (length c) b)
write_first c b h = write-append [] c b h

past_end : (k : ℕ) (d : Bytes) (b : Buffer) → length b < k + length d → write k d b ≡ none
unfolding write
past_end k d b h = rw (lt→leb_false (k + length d) (length b) h)

-- A message arrives in two parts, in two callbacks with the static count at 0 before the first, the
-- second part perhaps on another connection. Then no message is given to the work queue for the
-- first, and the second gives one for its own connection: it does not hold the first part, but as
-- many bytes of what the new block of memory held before, and then the second part.
pub server_reads_partial :
    (a a' : ℕ) (fresh fresh' : ℕ → Buffer) (c r : Bytes)
    → IsMessageBuffer (fresh 0)
    → IsMessageBuffer (fresh' 0)
    → 0 < length r
    → length c + length r ≡ max_message_size
    → server_reads (one_chunk a fresh c ∷ one_chunk a' fresh' r ∷ []) 0
      ≡ done ((a', take (length c) (fresh' 0) ++ r) ∷ [], 0)
unfolding server_reads server_on_read server_read_loop
server_reads_partial a a' fresh fresh' c r size size' more whole =
    rw
      (
        write_first c (fresh 0) (omega arith),
        lt→ltb (0 + length c) max_message_size (omega arith),
        short_of_room (0 + length c) (fresh' 0) r (omega arith),
        le→ltb_false (0 + length c + length r) max_message_size (omega arith),
      )
      (ap (λ (k : ℕ). done ((a', take k (fresh' 0) ++ r) ∷ [], 0)) {y = length c} (omega arith))

-- Within one callback, a chunk that reaches past the end of a message is written past the end of its
-- buffer: a part `c` of a message, and then more bytes than the message has left.
pub server_on_read_overrun :
    (fresh : ℕ → Buffer) (c d : Bytes) (chunks : List Bytes)
    → IsMessageBuffer (fresh 0)
    → length c < max_message_size
    → max_message_size < length c + length d
    → server_on_read fresh (c ∷ d ∷ chunks) 0 ≡ fault
unfolding server_on_read server_read_loop
server_on_read_overrun fresh c d chunks size part over = rw (
  write_first c (fresh 0) (omega arith),
  lt→ltb (0 + length c) max_message_size (omega arith),
  past_end (0 + length c) d (c ++ drop (length c) (fresh 0))
      (omega (arith, length-rest [] c (fresh 0) (omega arith))),
)
