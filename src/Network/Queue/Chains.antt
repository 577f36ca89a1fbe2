-- ===== src/Network/Queue/Chains.antt =====
-- Chains of linked cells, and the walk along one.
use libdynpm.Base.{
  ℕ, zero, suc, ◌≤◌, ◌≡◌, ◌≢◌, ◌∙◌, refl, ap, sym, false, [], ◌∷◌, ◌++◌, List, Option, none, some,
  map, length, All, ◌==◌, ==_iff, Bool-cases, inl, inr, arith,
}
use libdynpm.Text.Buffer.{Buffer}
use libdynpm.Network.Queue.{enqueue}
use libdynpm.Network.Queue.Cells.{Sender, Cells, assign, sender_walk, walk_rounds}

-- The cells from a pointer on are those at the addresses `xs`, in order.
abbrev pub IsChain : (ℕ → Option ℕ) → Option ℕ → List ℕ → Type 0
IsChain next h [] = h ≡ none
IsChain next h (x ∷ xs) = (h ≡ some x) × IsChain next (next x) xs

-- The cells at the addresses `xs` hold these messages, no sender is at work, and no callback is between
-- its halves.
pub record Represents (w : Cells) (xs : List ℕ) (messages : List Buffer) : Type 0 where
  pub chain : IsChain w.next w.head xs
  pub contents : map w.buffer xs ≡ messages
  pub quiet : w.sender ≡ Sender.idle
  pub whole : w.wrote ≡ false

abbrev pub IsFresh : ℕ → List ℕ → Type 0
IsFresh b xs = All (λ x. x ≢ b) xs

pub assign_self {ℓ} : {A : Type ℓ} (f : ℕ → A) (b : ℕ) (x : A) → assign f b x b ≡ x
assign_self f b x = rw ((==_iff b b).1 refl)

pub assign_ne {ℓ} : {A : Type ℓ} (f : ℕ → A) (b a : ℕ) (x : A) → b ≢ a → assign f b x a ≡ f a
assign_ne f b a x ne = elim (Bool-cases (b == a)) [
  | inl e ↦ absurd (ne ((==_iff b a).0 e))
  | inr other ↦ rw other
]

-- A chain without the address `b` is one after an assignment there.
pub IsChain-assign :
    (next : ℕ → Option ℕ) (b : ℕ) (v h : Option ℕ) (xs : List ℕ)
    → IsFresh b xs
    → IsChain next h xs
    → IsChain (assign next b v) h xs
IsChain-assign next b v h [] fresh chain = chain
IsChain-assign next b v h (x ∷ xs) fresh chain = (
  chain.0,
  rw (assign_ne next b x v (λ e. fresh.0 (sym e)))
      (IsChain-assign next b v (next x) xs fresh.1 chain.1),
)

map-assign :
    (f : ℕ → Buffer) (b : ℕ) (content : Buffer) (xs : List ℕ)
    → IsFresh b xs
    → map (assign f b content) xs ≡ map f xs
map-assign f b content [] fresh = refl
map-assign f b content (x ∷ xs) fresh =
    rw (assign_ne f b x content (λ e. fresh.0 (sym e)), map-assign f b content xs fresh.1)

-- The last address of a chain that begins at `t`
abbrev pub last : ℕ → List ℕ → ℕ
last t [] = t
last t (x ∷ xs) = last x xs

next-last :
    (next : ℕ → Option ℕ) (t : ℕ) (xs : List ℕ) → IsChain next (next t) xs → next (last t xs) ≡ none
next-last next t [] chain = chain
next-last next t (x ∷ xs) chain = next-last next x xs chain.1

last-IsFresh : (b t : ℕ) (xs : List ℕ) → IsFresh b (t ∷ xs) → last t xs ≢ b
last-IsFresh b t [] fresh = fresh.0
last-IsFresh b t (x ∷ xs) fresh = last-IsFresh b x xs fresh.1

-- The loop ends at the last message, with enough rounds.
pub walk_rounds_lem :
    (n : ℕ) (w : Cells) (t b : ℕ) (xs : List ℕ)
    → length xs ≤ n
    → IsChain w.next (w.next t) xs
    → walk_rounds n (record w { sender = Sender.at_tail t b })
      ≡ record w { sender = Sender.at_tail (last t xs) b }
unfolding walk_rounds sender_walk
walk_rounds_lem zero w t b [] h chain = refl
walk_rounds_lem zero w t b (x ∷ xs) h chain = absurd (omega arith)
walk_rounds_lem (suc n) w t b [] h chain =
    ap
      (λ (o : Option ℕ).
        walk_rounds n (record w {
          sender = elim o [ none ↦ Sender.at_tail t b | some u ↦ Sender.at_tail u b ];
        }))
      chain
    ∙ walk_rounds_lem n w t b [] (omega arith) chain
walk_rounds_lem (suc n) w t b (x ∷ xs) h chain =
    ap
      (λ (o : Option ℕ).
        walk_rounds n (record w {
          sender = elim o [ none ↦ Sender.at_tail t b | some u ↦ Sender.at_tail u b ];
        }))
      chain.0
    ∙ walk_rounds_lem n w x b xs (omega arith) chain.1

pub walk_rounds_empty :
    (n : ℕ) (w : Cells) (b : ℕ)
    → walk_rounds n (record w { sender = Sender.found_empty b })
      ≡ record w { sender = Sender.found_empty b }
unfolding walk_rounds sender_walk
walk_rounds_empty zero w b = refl
walk_rounds_empty (suc n) w b = walk_rounds_empty n w b

-- The assignment at the last message makes a chain with the new message at its end.
pub link-IsChain :
    (next : ℕ → Option ℕ) (b x : ℕ) (h : Option ℕ) (xs : List ℕ)
    → IsFresh b (x ∷ xs)
    → next b ≡ none
    → IsChain next h (x ∷ xs)
    → IsChain (assign next (last x xs) (some b)) h ((x ∷ xs) ++ b ∷ [])
link-IsChain next b x h [] fresh ends chain =
    (chain.0, (assign_self next x (some b), assign_ne next x b (some b) fresh.0 ∙ ends))
link-IsChain next b x h (y ∷ ys) fresh ends chain =
    let other : last y ys ≢ x = λ e.
      let clash : some y ≡ none = sym chain.1.0 ∙ ap next (sym e) ∙ next-last next y ys chain.1.1 in
      cc in
    (
      chain.0,
      rw (assign_ne next (last y ys) x (some b) other)
          (link-IsChain next b y (next x) ys fresh.1 ends chain.1),
    )

pub enqueue_contents :
    (f : ℕ → Buffer) (b : ℕ) (content : Buffer) (xs : List ℕ)
    → IsFresh b xs
    → map (assign f b content) (xs ++ b ∷ []) ≡ enqueue content (map f xs)
unfolding enqueue
enqueue_contents f b content [] fresh = rw (assign_self f b content)
enqueue_contents f b content (x ∷ xs) fresh =
    rw (assign_ne f b x content (λ e. fresh.0 (sym e)), enqueue_contents f b content xs fresh.1)
