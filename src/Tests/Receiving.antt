-- ===== src/Tests/Receiving.antt =====
-- The read callbacks.
use libdynpm.Base.{
  ℕ, ◌≡◌, ◌≢◌, refl, arith, [], ◌∷◌, ◌++◌, length, length-replicate, replicate, take, ◌⊎◌,
}
use libdynpm.Text.Chars.{Bytes}
use libdynpm.Text.Outcome.{done}
use libdynpm.Text.Buffer.{Buffer}
use libdynpm.Protocol.Frame.{max_message_size}
use libdynpm.Network.Receive.{concat, server_reads, client_on_read, handles, exits}
use libdynpm.Network.Receive.Blocks.{IsAligned, client_on_read_lem}
use libdynpm.Network.Receive.Partial.{one_chunk, server_reads_partial}
use libdynpm.Tests.Data.{empty_buffer, empty_buffer-IsMessageBuffer}

-- A message in two chunks
abbrev first_part : Bytes
first_part = replicate 4000 1

abbrev second_part : Bytes
second_part = replicate 96 2

length-first_part : length first_part ≡ 4000
length-first_part = length-replicate {A = ℕ} 4000 1

length-second_part : length second_part ≡ 96
length-second_part = length-replicate {A = ℕ} 96 2

abbrev memory : ℕ → Buffer
memory k = empty_buffer

two_chunks-IsAligned : IsAligned 0 (first_part ∷ second_part ∷ [])
two_chunks-IsAligned = (omega arith, (omega arith, refl))

client_on_read_lem_example :
    ((length (concat (first_part ∷ second_part ∷ [])) ≡ max_message_size)
      × (client_on_read empty_buffer
            (length (concat (first_part ∷ second_part ∷ [])))
            (first_part ∷ second_part ∷ [])
          ≡ handles (concat (first_part ∷ second_part ∷ []))))
    ⊎ ((length (concat (first_part ∷ second_part ∷ [])) ≢ max_message_size)
        × (client_on_read empty_buffer
              (length (concat (first_part ∷ second_part ∷ [])))
              (first_part ∷ second_part ∷ [])
            ≡ exits))
client_on_read_lem_example =
    client_on_read_lem empty_buffer (first_part ∷ second_part ∷ []) empty_buffer-IsMessageBuffer

server_reads_partial_example :
    server_reads (one_chunk 20 memory first_part ∷ one_chunk 30 memory second_part ∷ []) 0
    ≡ done ((30, take (length first_part) (memory 0) ++ second_part) ∷ [], 0)
server_reads_partial_example =
    server_reads_partial 20 30 memory memory first_part second_part empty_buffer-IsMessageBuffer
      empty_buffer-IsMessageBuffer (omega (arith, length-second_part))
      (omega (arith, length-first_part, length-second_part))
