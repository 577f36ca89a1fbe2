-- ===== src/Network/Wire.antt =====
-- Messages on the way from the write callbacks of a client to the read callback of a server.
use libdynpm.Base.{
  ℕ, ◌*◌, ◌≡◌, ◌∙◌, refl, ap, sym, [], ◌∷◌, List, All, length, length-append, take-append,
  append_assoc, append-nil, ◌++◌, drop-append, take, drop, arith,
}
use libdynpm.Text.Chars.{Bytes}
use libdynpm.Text.Outcome.{done}
use libdynpm.Text.Buffer.{Buffer}
use libdynpm.Protocol.Frame.{max_message_size, IsMessageBuffer}
use libdynpm.Network.Queue.{run}
use libdynpm.Network.Queue.Draining.{drains, run-drains}
use libdynpm.Network.Receive.{concat, server_on_read}
use libdynpm.Network.Receive.Blocks.{IsAligned, server_on_read_lem}

pub length-concat :
    (messages : List Buffer)
    → All IsMessageBuffer messages
    → length (concat messages) ≡ length messages * max_message_size
length-concat [] sizes = refl
length-concat (m ∷ messages) sizes =
    omega (arith, length-append m (concat messages), length-concat messages sizes.1, sizes.0)

first_of_wire :
    (m n x y : Bytes) → IsMessageBuffer m → IsMessageBuffer n → m ++ x ≡ n ++ y → (m ≡ n) × (x ≡ y)
first_of_wire m n x y size size' e = (
  sym (take-append max_message_size m x size)
      ∙ ap (λ bytes. take max_message_size bytes) e
      ∙ take-append max_message_size n y size',
  sym (drop-append max_message_size m x size)
      ∙ ap (λ bytes. drop max_message_size bytes) e
      ∙ drop-append max_message_size n y size',
)

-- Messages at the front of the bytes of messages are the first of them, and the rest are the others.
pub front_of_wire :
    (us ms : List Buffer) (rest : Bytes)
    → All IsMessageBuffer us
    → All IsMessageBuffer ms
    → concat us ++ rest ≡ concat ms
    → (others : List Buffer) × (ms ≡ us ++ others)
      × (rest ≡ concat others)
      × All IsMessageBuffer others
front_of_wire [] ms rest sizes sizes' e = (ms, refl, e, sizes')
front_of_wire (u ∷ us) [] rest sizes sizes' e = absurd (
    omega (
      arith,
      ap length e,
      length-append (u ++ concat us) rest,
      length-append u (concat us),
      sizes.0,
    ))
front_of_wire (u ∷ us) (m ∷ ms) rest sizes sizes' e =
    let (same, later) =
      first_of_wire u m (concat us ++ rest) (concat ms) sizes.0 sizes'.0
        (sym (append_assoc u (concat us) rest) ∙ e) in
    let (others, split, left, full) = front_of_wire us ms rest sizes.1 sizes'.1 later in
    (others, cc (same, split), left, full)

nothing_on_wire : (os : List Buffer) → All IsMessageBuffer os → [] ≡ concat os → os ≡ []
nothing_on_wire [] full h = refl
nothing_on_wire (o ∷ os) full h =
    absurd (omega (arith, ap length h, length-append o (concat os), full.0))

-- Blocks of one size are known from their bytes in order.
pub concat_injective :
    (ms ns : List Buffer)
    → All IsMessageBuffer ms
    → All IsMessageBuffer ns
    → concat ms ≡ concat ns
    → ms ≡ ns
concat_injective ms ns sizes sizes' e =
    let (others, split, none_left, full) =
      front_of_wire ms ns [] sizes sizes' (append-nil (concat ms) ∙ e) in
    sym (split ∙ ap (λ os. ms ++ os) (nothing_on_wire others full none_left) ∙ append-nil ms)

-- Bytes of whole messages, in chunks that do not cross the end of one, are read as these messages.
pub server_on_read-concat :
    (fresh : ℕ → Buffer) (chunks : List Bytes) (bs : List Buffer)
    → ((k : ℕ) → IsMessageBuffer (fresh k))
    → All IsMessageBuffer bs
    → concat chunks ≡ concat bs
    → IsAligned 0 chunks
    → server_on_read fresh chunks 0 ≡ done (bs, 0)
server_on_read-concat fresh chunks bs sizes full same aligned =
    let (units, taken, bytes, fit) = server_on_read_lem fresh chunks sizes aligned in
    taken ∙ ap (λ ms. done (ms, 0)) (concat_injective units bs fit full (bytes ∙ same))

-- All messages that wait are written by as many callbacks, and read over a network that keeps the bytes
-- in order and delivers whole messages in such chunks.
pub wire_lem :
    (network : Bytes → List Bytes) (fresh : ℕ → Buffer)
    → ((w : Bytes) → concat (network w) ≡ w)
    → ((w : Bytes) (n : ℕ) → length w ≡ n * max_message_size → IsAligned 0 (network w))
    → ((k : ℕ) → IsMessageBuffer (fresh k))
    → (bs : List Buffer) → All IsMessageBuffer bs
    → server_on_read fresh
        (network
          (concat (run (drains (length bs)) (record { messages = bs; written = [] })).written))
        0
      ≡ done (bs, 0)
wire_lem network fresh keeps whole sizes bs full =
    ap (λ ms. server_on_read fresh (network (concat ms)) 0) (run-drains bs [])
    ∙ server_on_read-concat fresh (network (concat bs)) bs sizes full (keeps (concat bs))
        (whole (concat bs) (length bs) (length-concat bs full))
