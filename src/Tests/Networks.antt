-- ===== src/Tests/Networks.antt =====
-- A network as the theorems on deliveries take it.
use libdynpm.Base.{
  ℕ, zero, suc, ◌*◌, ◌/◌, ◌≡◌, ◌∙◌, refl, ap, arith, [], ◌∷◌, ◌++◌, List, length, length-take,
  length-drop, take, drop, append-nil,
}
use libdynpm.Text.Chars.{Bytes}
use libdynpm.Protocol.Frame.{max_message_size}
use libdynpm.Network.Receive.{concat}
use libdynpm.Network.Receive.Blocks.{IsAligned}

-- A network that delivers one message after the other, and then the rest.
abbrev cut : ℕ → Bytes → List Bytes
cut zero [] = []
cut zero (b ∷ w) = (b ∷ w) ∷ []
cut (suc n) w = take max_message_size w ∷ cut n (drop max_message_size w)

abbrev pub network : Bytes → List Bytes
network w = cut (length w / max_message_size) w

take-drop : (n : ℕ) (w : Bytes) → take n w ++ drop n w ≡ w
take-drop zero w = refl
take-drop (suc n) [] = refl
take-drop (suc n) (b ∷ w) = ap (λ t. b ∷ t) (take-drop n w)

concat-cut : (n : ℕ) (w : Bytes) → concat (cut n w) ≡ w
concat-cut zero [] = refl
concat-cut zero (b ∷ w) = append-nil (b ∷ w)
concat-cut (suc n) w =
    ap (λ r. take max_message_size w ++ r) (concat-cut n (drop max_message_size w))
    ∙ take-drop max_message_size w

cut-IsAligned : (n : ℕ) (w : Bytes) → length w ≡ n * max_message_size → IsAligned 0 (cut n w)
cut-IsAligned zero [] h = refl
cut-IsAligned zero (b ∷ w) h = absurd (omega arith)
cut-IsAligned (suc n) w h =
    let front : length (take max_message_size w) ≡ max_message_size =
      length-take max_message_size w (omega arith) in
    rw front (
      omega arith,
      cut-IsAligned n (drop max_message_size w) (omega (arith, length-drop max_message_size w)),
    )

pub network-IsAligned :
    (w : Bytes) (n : ℕ) → length w ≡ n * max_message_size → IsAligned 0 (network w)
network-IsAligned w n h = cut-IsAligned (length w / max_message_size) w (omega arith)

pub concat-network : (w : Bytes) → concat (network w) ≡ w
concat-network w = concat-cut (length w / max_message_size) w
