-- ===== src/Network/Queue/Refinement.antt =====
-- The linked cells implement the queue as a list, where an enqueue runs as a whole; and what an enqueue
-- that a callback interrupts does.
use libdynpm.Base.{
  ℕ, ◌≤◌, ◌≡◌, ◌∙◌, refl, ap, sym, true, false, Bool, [], ◌∷◌, ◌++◌, List, Option, none, some, map,
  length, if◌then◌else◌, arith,
}
use libdynpm.Text.Buffer.{Buffer}
use libdynpm.Network.Queue.{enqueue, progress}
use libdynpm.Network.Queue.Cells.{
  Sender, Cells, assign, sender_start, sender_link, walk_rounds, enqueue_cells, callback_write,
  callback_pop,
}
use libdynpm.Network.Queue.Chains.{
  IsChain, Represents, IsFresh, assign_self, assign_ne, IsChain-assign, last, walk_rounds_lem,
  walk_rounds_empty, link-IsChain, enqueue_contents,
}

-- `_dynpm_enqueue_send_buffer`, whole and with at least as many rounds as messages wait, ends, and what
-- it makes of the cells is what the enqueue of the list makes of the messages; nothing is written. The
-- new message has an address that is not in the queue.
pub enqueue_cells_lem :
    (rounds b : ℕ) (content : Buffer) (w : Cells) (xs : List ℕ) (messages : List Buffer)
    → Represents w xs messages
    → IsFresh b xs
    → length xs ≤ rounds
    → Represents (enqueue_cells rounds b content w) (xs ++ b ∷ []) (enqueue content messages)
      × ((enqueue_cells rounds b content w).written ≡ w.written)
unfolding enqueue_cells sender_start sender_link
enqueue_cells_lem rounds b content w [] messages v fresh enough =
    let w₁ : Cells = record w { next = assign w.next b none; buffer = assign w.buffer b content } in
    let started : sender_start b content w ≡ record w₁ { sender = Sender.found_empty b } =
      ap
        (λ (o : Option ℕ). record w₁ {
          sender = elim o [ none ↦ Sender.found_empty b | some h ↦ Sender.at_tail h b ];
        })
        v.chain in
    let ran : enqueue_cells rounds b content w ≡ record w₁ { head = some b; sender = Sender.idle } =
      ap (λ (c : Cells). sender_link (walk_rounds rounds c)) started
      ∙ ap sender_link (walk_rounds_empty rounds w₁ b) in
    rw ran (
      record {
        chain = (refl, assign_self w.next b none);
        contents = enqueue_contents w.buffer b content [] tt ∙ ap (enqueue content) v.contents;
        quiet = refl;
        whole = v.whole;
      },
      refl,
    )
enqueue_cells_lem rounds b content w (x ∷ xs) messages v fresh enough =
    let w₁ : Cells = record w { next = assign w.next b none; buffer = assign w.buffer b content } in
    let chain₁ : IsChain w₁.next w.head (x ∷ xs) =
      IsChain-assign w.next b none w.head (x ∷ xs) fresh v.chain in
    let started : sender_start b content w ≡ record w₁ { sender = Sender.at_tail x b } =
      ap
        (λ (o : Option ℕ). record w₁ {
          sender = elim o [ none ↦ Sender.found_empty b | some h ↦ Sender.at_tail h b ];
        })
        v.chain.0 in
    let ran : enqueue_cells rounds b content w
        ≡ record w₁ { next = assign w₁.next (last x xs) (some b); sender = Sender.idle } =
      ap (λ (c : Cells). sender_link (walk_rounds rounds c)) started
      ∙ ap sender_link (walk_rounds_lem rounds w₁ x b xs (omega arith) chain₁.1) in
    rw ran (
      record {
        chain = link-IsChain w₁.next b x w.head xs fresh (assign_self w.next b none) chain₁;
        contents =
            enqueue_contents w.buffer b content (x ∷ xs) fresh ∙ ap (enqueue content) v.contents;
        quiet = refl;
        whole = v.whole;
      },
      refl,
    )

write_step :
    (w : Cells) (x : ℕ)
    → w.head ≡ some x
    → callback_write w ≡ record w { written = w.written ++ w.buffer x ∷ []; wrote = true }
unfolding callback_write
write_step w x e =
    ap
      (λ (o : Option ℕ). elim o [
        | none ↦ w
        | some m ↦ record w { written = w.written ++ w.buffer m ∷ []; wrote = true }
      ])
      e

pop_step :
    (w : Cells) (x : ℕ)
    → w.wrote ≡ true
    → w.head ≡ some x
    → callback_pop w ≡ record w { head = w.next x; wrote = false }
unfolding callback_pop
pop_step w x wrote e =
    ap
      (λ (t : Bool).
        if t
        then record w { head = elim w.head [ none ↦ none | some m ↦ w.next m ]; wrote = false }
        else w)
      wrote
    ∙ ap
        (λ (o : Option ℕ). record w {
          head = elim o [ none ↦ none | some m ↦ w.next m ];
          wrote = false;
        })
        e

-- A callback at a queue that is not empty
callback_step :
    (w : Cells) (x : ℕ)
    → w.head ≡ some x
    → callback_pop (callback_write w)
      ≡ record w { head = w.next x; written = w.written ++ w.buffer x ∷ []; wrote = false }
callback_step w x e =
    ap callback_pop (write_step w x e)
    ∙ pop_step (record w { written = w.written ++ w.buffer x ∷ []; wrote = true }) x refl e

-- A callback, whole, makes of the cells what the callback of the list makes of the messages: the first
-- message is written, and the rest waits.
pub callback_cells_lem :
    (w : Cells) (x : ℕ) (xs : List ℕ) (m : Buffer) (messages : List Buffer)
    → Represents w (x ∷ xs) (m ∷ messages)
    → Represents
        (callback_pop (callback_write w))
        xs
        (progress true (record { messages = m ∷ messages; written = w.written })).messages
      × ((callback_pop (callback_write w)).written
          ≡ (progress true (record { messages = m ∷ messages; written = w.written })).written)
unfolding progress
callback_cells_lem w x xs m messages v =
    let all : w.buffer x ∷ map w.buffer xs ≡ m ∷ messages = v.contents in
    let first : w.buffer x ≡ m = cc in
    let others : map w.buffer xs ≡ messages = cc in
    rw (callback_step w x v.chain.0) (
      record { chain = v.chain.1; contents = others; quiet = v.quiet; whole = refl },
      ap (λ (b : Buffer). w.written ++ b ∷ []) first,
    )

-- A sender looks at a queue of one message, a callback writes that message and takes it off, and then
-- the sender links the new message behind it. The new message is then lost: the queue is empty, and
-- only the first message was written.
pub enqueue_loses :
    (w : Cells) (x b : ℕ) (m content : Buffer)
    → Represents w (x ∷ []) (m ∷ [])
    → IsFresh b (x ∷ [])
    → Represents (sender_link (callback_pop (callback_write (sender_start b content w)))) [] []
      × ((sender_link (callback_pop (callback_write (sender_start b content w)))).written
          ≡ w.written ++ m ∷ [])
unfolding sender_start sender_link
enqueue_loses w x b m content v fresh =
    let w₁ : Cells = record w { next = assign w.next b none; buffer = assign w.buffer b content } in
    let started : sender_start b content w ≡ record w₁ { sender = Sender.at_tail x b } =
      ap
        (λ (o : Option ℕ). record w₁ {
          sender = elim o [ none ↦ Sender.found_empty b | some h ↦ Sender.at_tail h b ];
        })
        v.chain.0 in
    let all : w.buffer x ∷ [] ≡ m ∷ [] = v.contents in
    let first : w.buffer x ≡ m = cc in
    let kept : w₁.buffer x ≡ m = assign_ne w.buffer b x content (λ e. fresh.0 (sym e)) ∙ first in
    let ends : w₁.next x ≡ none = assign_ne w.next b x none (λ e. fresh.0 (sym e)) ∙ v.chain.1 in
    let ran : sender_link (callback_pop (callback_write (sender_start b content w))) ≡ record w₁ {
      next = assign w₁.next x (some b);
      head = w₁.next x;
      written = w.written ++ w₁.buffer x ∷ [];
      wrote = false;
      sender = Sender.idle;
    } =
      ap (λ (c : Cells). sender_link (callback_pop (callback_write c))) started
      ∙ ap sender_link (callback_step (record w₁ { sender = Sender.at_tail x b }) x v.chain.0) in
    rw ran (
      record { chain = ends; contents = refl; quiet = refl; whole = refl },
      ap (λ (c : Buffer). w.written ++ c ∷ []) kept,
    )
