-- ===== src/Network/Queue/Cells.antt =====
-- The queue of outgoing messages as linked cells: `_dynpm_enqueue_send_buffer` of src/network/client.c
-- in single steps, and the write callbacks, which take another mutex, in two.
use libdynpm.Base.{
  ℕ, zero, suc, true, false, Bool, [], ◌∷◌, ◌++◌, List, Option, none, some, ◌==◌, if◌then◌else◌,
}
use libdynpm.Text.Buffer.{Buffer}

-- A thread in `_dynpm_enqueue_send_buffer`, with the address of the new message.
pub data Sender : Type 0 where
  idle : Sender
  -- it has found the queue empty
  found_empty : ℕ → Sender
  -- `tail` is at this address
  at_tail : ℕ → ℕ → Sender

-- The fields `next` and `buffer` of the messages by address, `messages_head`, what `bufferevent_write`
-- was given, the sender, and whether a callback has written but not yet taken the head off.
pub record Cells : Type 0 where
  pub next : ℕ → Option ℕ
  pub buffer : ℕ → Buffer
  pub head : Option ℕ
  pub written : List Buffer
  pub sender : Sender
  pub wrote : Bool

abbrev pub assign {ℓ} : {A : Type ℓ} → (ℕ → A) → ℕ → A → ℕ → A
assign f b x a = if b == a then x else f a

-- The new message at the address `b`, and the first look at the head.
unfoldable pub sender_start : ℕ → Buffer → Cells → Cells
sender_start b content w = record w {
  next = assign w.next b none;
  buffer = assign w.buffer b content;
  sender = elim w.head [ none ↦ Sender.found_empty b | some h ↦ Sender.at_tail h b ];
}

-- One test of `while(tail->next)`, with its body
unfoldable pub sender_walk : Cells → Cells
sender_walk w = elim w.sender [
  | Sender.at_tail t b ↦ record w {
    sender = elim (w.next t) [ none ↦ Sender.at_tail t b | some u ↦ Sender.at_tail u b ];
  }
  | other ↦ w
]

-- `tail->next = new_message`, or `*messages_head = new_message`
unfoldable pub sender_link : Cells → Cells
sender_link w = elim w.sender [
  | Sender.idle ↦ w
  | Sender.found_empty b ↦ record w { head = some b; sender = Sender.idle }
  | Sender.at_tail t b ↦ record w { next = assign w.next t (some b); sender = Sender.idle }
]

-- `_dynpm_enqueue_send_buffer` as a whole, with as many rounds of its loop
unfoldable pub walk_rounds : ℕ → Cells → Cells
walk_rounds zero w = w
walk_rounds (suc n) w = walk_rounds n (sender_walk w)

unfoldable pub enqueue_cells : ℕ → ℕ → Buffer → Cells → Cells
unfolding sender_start walk_rounds sender_link
enqueue_cells rounds b content w = sender_link (walk_rounds rounds (sender_start b content w))

-- The first half of a callback: `bufferevent_write` of the head
unfoldable pub callback_write : Cells → Cells
callback_write w = elim w.head [
  | none ↦ w
  | some m ↦ record w { written = w.written ++ w.buffer m ∷ []; wrote = true }
]

-- The second half: `messages_head = messages_head->next`
unfoldable pub callback_pop : Cells → Cells
callback_pop w =
    if w.wrote
    then record w { head = elim w.head [ none ↦ none | some m ↦ w.next m ]; wrote = false }
    else w
