-- ===== src/Network/Queue/Draining.antt =====
-- Enough write callbacks empty the queue of outgoing messages.
use libdynpm.Base.{
  ℕ, zero, suc, ◌+◌, ◌≤◌, ◌≡◌, ◌∙◌, refl, ap, sym, true, [], ◌∷◌, ◌++◌, List, append_assoc,
  append-nil, length, length-append, arith,
}
use libdynpm.Text.Buffer.{Buffer}
use libdynpm.Network.Queue.{
  Event, send, drain, Outbox, run, sends, progress, flush, enqueue, enqueue-append, run-sends,
}

-- So many write callbacks
abbrev pub drains : ℕ → List Event
drains zero = []
drains (suc n) = drain ∷ drains n

pub run-drains :
    (messages written : List Buffer)
    → (run (drains (length messages)) (record { messages = messages; written = written })).written
      ≡ written ++ messages
unfolding run progress flush
run-drains [] written = sym (append-nil written)
run-drains (m ∷ messages) written =
    run-drains messages (written ++ m ∷ []) ∙ append_assoc written (m ∷ []) messages

emptied :
    (n : ℕ) (messages written : List Buffer)
    → length messages ≤ n
    → (run (drains n) (record { messages = messages; written = written })).messages ≡ []
unfolding run progress flush
emptied zero [] written h = refl
emptied zero (m ∷ messages) written h = absurd (omega arith)
emptied (suc n) [] written h = emptied n [] written (omega arith)
emptied (suc n) (m ∷ messages) written h = emptied n messages (written ++ m ∷ []) (omega arith)

run-append :
    (events more : List Event) (o : Outbox) → run (events ++ more) o ≡ run more (run events o)
unfolding run
run-append [] more o = refl
run-append (send b ∷ events) more o =
    run-append events more (record o { messages = enqueue b o.messages })
run-append (drain ∷ events) more o = run-append events more (progress true o)

length-flush :
    (messages written : List Buffer)
    → length (flush true messages written).messages ≤ length messages
unfolding flush
length-flush [] written = omega arith
length-flush (m ∷ messages) written = omega arith

length-run :
    (events : List Event) (o : Outbox)
    → length (run events o).messages ≤ length o.messages + length (sends events)
unfolding run progress
length-run [] o = omega arith
length-run (send b ∷ events) o = omega (
  arith,
  length-run events (record o { messages = enqueue b o.messages }),
  ap length (enqueue-append b o.messages),
  length-append o.messages (b ∷ []),
)
length-run (drain ∷ events) o =
    omega (arith, length-run events (progress true o), length-flush o.messages o.written)

sends-drains : (events : List Event) (n : ℕ) → sends (events ++ drains n) ≡ sends events
sends-drains [] zero = refl
sends-drains [] (suc n) = sends-drains [] n
sends-drains (send b ∷ events) n = ap (λ t. b ∷ t) (sends-drains events n)
sends-drains (drain ∷ events) n = sends-drains events n

-- After any sequence of sends and of callbacks whose writes succeed, as many further callbacks as
-- messages waited at first and were sent leave nothing waiting, and every message is written, in order.
pub queue_drains :
    (events : List Event) (n : ℕ) (o : Outbox)
    → length o.messages + length (sends events) ≤ n
    → ((run (events ++ drains n) o).messages ≡ [])
      × ((run (events ++ drains n) o).written ≡ (o.written ++ o.messages) ++ sends events)
queue_drains events n o enough =
    let all = events ++ drains n in
    let empty : (run all o).messages ≡ [] =
      ap (λ (q : Outbox). q.messages) (run-append events (drains n) o)
      ∙ emptied n (run events o).messages (run events o).written
          (omega (arith, length-run events o)) in
    (
      empty,
      sym (append-nil (run all o).written)
          ∙ ap (λ ms. (run all o).written ++ ms) (sym empty)
          ∙ run-sends all o
          ∙ ap (λ ms. (o.written ++ o.messages) ++ ms) (sends-drains events n),
    )
