-- ===== src/Network/Receive/Blocks.antt =====
-- What the read callbacks make of chunks that come in whole messages.
use libdynpm.Base.{
  ℕ, ◌+◌, ◌≤◌, ◌<◌, ◌≡◌, ◌∙◌, refl, ap, sym, true, [], ◌∷◌, ◌++◌, List, All, ltb, ◌==◌, length,
  length-append, length-drop, drop, append_assoc, append-nil, arith, Bool-cases, ==_iff, ◌≢◌, ◌⊎◌,
  inl, inr, ltb_false→le, if◌then◌else◌, some,
}
use libdynpm.Text.Chars.{Bytes}
use libdynpm.Text.Outcome.{Outcome, done}
use libdynpm.Text.Splice.{write-append}
use libdynpm.Text.Buffer.{Buffer, write}
use libdynpm.Protocol.Frame.{max_message_size, IsMessageBuffer}
use libdynpm.Network.Receive.{
  concat, server_read_loop, server_on_read, handles, exits, client_read_loop, client_on_read,
}

pub empty_of_length : (s : Bytes) → length s ≡ 0 → s ≡ []
empty_of_length [] h = refl
empty_of_length (c ∷ s) h = absurd (omega arith)

-- No chunk crosses the end of a message, and the last one ends with one; `filled` bytes of the first
-- message are there.
abbrev pub IsAligned : ℕ → List Bytes → Type 0
IsAligned filled [] = filled ≡ 0
IsAligned filled (c ∷ chunks) =
    (filled + length c ≤ max_message_size)
    × IsAligned (if ltb (filled + length c) max_message_size then filled + length c else 0) chunks

-- The loop over aligned chunks gives messages whose bytes are those of the chunks.
abbrev Delivers : Bytes → List Bytes → Outcome (List Buffer × ℕ) → Type 0
Delivers p chunks o =
    (messages : List Buffer) × (o ≡ done (messages, 0))
    × (concat messages ≡ p ++ concat chunks)
    × All IsMessageBuffer messages

-- What the buffer of a message holds behind the bytes `p` after a chunk is as long as it should be.
pub length-rest :
    (p c r : Bytes) → length c ≤ length r → length ((p ++ c) ++ drop (length c) r) ≡ length (p ++ r)
length-rest p c r h = omega (
  arith,
  length-append (p ++ c) (drop (length c) r),
  length-append p c,
  length-append p r,
  length-drop (length c) r,
)

loop_lem :
    (fresh : ℕ → Buffer) (k : ℕ) (chunks : List Bytes) (p r : Bytes) (filled : ℕ)
    → length p ≡ filled
    → ((i : ℕ) → IsMessageBuffer (fresh i))
    → IsMessageBuffer (p ++ r)
    → IsAligned filled chunks
    → Delivers p chunks (server_read_loop fresh k chunks (p ++ r) filled)
unfolding server_read_loop
loop_lem fresh k [] [] r filled here sizes size aligned =
    ([], ap (λ n. done ([], n)) aligned, refl, tt)
loop_lem fresh k [] (c ∷ p) r filled here sizes size aligned = absurd (omega arith)
loop_lem fresh k (c ∷ chunks) p r filled here sizes size (small, aligned) =
    let fits : length c ≤ length r = omega (arith, length-append p r) in
    let rest = drop (length c) r in
    let written : write filled c (p ++ r) ≡ some ((p ++ c) ++ rest) =
      ap (λ n. write n c (p ++ r)) (sym here) ∙ write-append p c r fits in
    let kept : IsMessageBuffer ((p ++ c) ++ rest) = length-rest p c r fits ∙ size in
    elim (Bool-cases (ltb (filled + length c) max_message_size)) [
      | inl more ↦
          let (messages, ran, same, whole) =
            loop_lem fresh k chunks (p ++ c) rest (filled + length c)
              (omega (arith, length-append p c)) sizes kept (rw more at aligned) in
          (messages, rw (written, more) ran, same ∙ append_assoc p c (concat chunks), whole)
      | inr full ↦
          let (messages, ran, same, whole) =
            loop_lem fresh (k + 1) chunks [] (fresh (k + 1)) 0 refl sizes (sizes (k + 1))
              (rw full at aligned) in
          let reached : max_message_size ≤ filled + length c = ltb_false→le _ _ full in
          let over : rest ≡ [] =
            empty_of_length rest (omega (arith, length-drop (length c) r, length-append p r)) in
          (
            ((p ++ c) ++ rest) ∷ messages,
            rw (written, full, ran),
            ap (λ t. ((p ++ c) ++ t) ++ concat messages) over
                ∙ ap (λ t. t ++ concat messages) (append-nil (p ++ c))
                ∙ ap (λ t. (p ++ c) ++ t) same
                ∙ append_assoc p c (concat chunks),
            (kept, whole),
          )
    ]

-- Where a callback begins with the static count at 0, every block of memory has the message size, no
-- chunk crosses the end of a message and the last one ends with one, the messages given to the work
-- queue have the message size each, and their bytes in order are the bytes received; the count is 0
-- again.
pub server_on_read_lem :
    (fresh : ℕ → Buffer) (chunks : List Bytes)
    → ((i : ℕ) → IsMessageBuffer (fresh i))
    → IsAligned 0 chunks
    → (messages : List Buffer) × (server_on_read fresh chunks 0 ≡ done (messages, 0))
      × (concat messages ≡ concat chunks)
      × All IsMessageBuffer messages
unfolding server_on_read
server_on_read_lem fresh chunks sizes aligned =
    loop_lem fresh 0 chunks [] (fresh 0) 0 refl sizes (sizes 0) aligned

client_loop :
    (chunks : List Bytes) (p r : Bytes) (filled : ℕ)
    → length p ≡ filled
    → filled < max_message_size
    → IsMessageBuffer (p ++ r)
    → length (p ++ concat chunks) ≡ max_message_size
    → client_read_loop chunks (p ++ r) filled ≡ done (p ++ concat chunks)
unfolding client_read_loop
client_loop [] p r filled here less size total = absurd (omega (arith, length-append p []))
client_loop (c ∷ chunks) p r filled here less size total =
    let sum : length p + (length c + length (concat chunks)) ≡ max_message_size =
      omega (arith, length-append p (c ++ concat chunks), length-append c (concat chunks)) in
    let fits : length c ≤ length r = omega (arith, length-append p r) in
    let rest = drop (length c) r in
    let written : write filled c (p ++ r) ≡ some ((p ++ c) ++ rest) =
      ap (λ n. write n c (p ++ r)) (sym here) ∙ write-append p c r fits in
    elim (Bool-cases (filled + length c == max_message_size)) [
      | inl full ↦
          let reached : filled + length c ≡ max_message_size = (==_iff _ _).0 full in
          let over : rest ≡ [] =
            empty_of_length rest (omega (arith, length-drop (length c) r, length-append p r)) in
          let spent : concat chunks ≡ [] = empty_of_length (concat chunks) (omega arith) in
          rw (written, full)
            (ap (λ t. done ((p ++ c) ++ t)) over
              ∙ ap done (append_assoc p c [] ∙ ap (λ t. p ++ (c ++ t)) (sym spent)))
      | inr more ↦
          let other : ¬ (filled + length c ≡ max_message_size) = λ e.
            let clash : (filled + length c == max_message_size) ≡ true = (==_iff _ _).1 e in cc in
          rw (written, more)
            (client_loop chunks (p ++ c) rest (filled + length c) (omega (arith, length-append p c))
                (ground arith) (length-rest p c r fits ∙ size)
                (ap length (append_assoc p c (concat chunks)) ∙ total)
              ∙ ap done (append_assoc p c (concat chunks)))
    ]

-- With a buffer of the message size, and as many bytes in the input as the chunks hold, the client's
-- callback gives the handler exactly the bytes received if they are one whole message, and ends the
-- program if they are not, also where they are several whole messages.
pub client_on_read_lem :
    (fresh : Buffer) (chunks : List Bytes)
    → IsMessageBuffer fresh
    → ((length (concat chunks) ≡ max_message_size)
        × (client_on_read fresh (length (concat chunks)) chunks ≡ handles (concat chunks)))
      ⊎ ((length (concat chunks) ≢ max_message_size)
          × (client_on_read fresh (length (concat chunks)) chunks ≡ exits))
unfolding client_on_read
client_on_read_lem fresh chunks size =
    elim (Bool-cases (length (concat chunks) == max_message_size)) [
      | inl one ↦
          let whole : length (concat chunks) ≡ max_message_size = (==_iff _ _).0 one in
          inl (whole, rw (one, client_loop chunks [] fresh 0 refl (omega arith) size whole))
      | inr other ↦ inr (
        (λ e.
            let clash : (length (concat chunks) == max_message_size) ≡ true = (==_iff _ _).1 e in
            cc),
        rw other,
      )
    ]
