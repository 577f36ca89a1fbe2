-- ===== src/Network/System/Progress.antt =====
-- From every state that can be reached, the messages sent can all be brought to the workers.
use libdynpm.Base.{
  ℕ, ◌≡◌, refl, ◌∙◌, ap, sym, false, [], ◌∷◌, ◌++◌, List, All, some, append_assoc, append-nil,
  arith,
}
use libdynpm.Text.Buffer.{Buffer}
use libdynpm.Protocol.Frame.{IsMessageBuffer}
use libdynpm.Network.Queue.{progress, flush}
use libdynpm.Network.Receive.{concat, server_on_read}
use libdynpm.Network.Receive.Blocks.{IsAligned}
use libdynpm.Network.Wire.{server_on_read-concat}
use libdynpm.Network.Pool.{Pool, work_queue_init, queue_round}
use libdynpm.Network.System.{
  System, on_write, on_read, on_work, Step, writes, reads, works, Steps, stay, next, initial,
}
use libdynpm.Network.System.Conservation.{steps-Conserves, initial-Conserves, add_all-units}

join : {s t u : System} → Steps s t → Steps t u → Steps s u
join stay more = more
join (next step steps) more = next step (join steps more)

arrive : {s t u : System} → Steps s t → t ≡ u → Steps s u
arrive steps e = rw (sym e) steps

begin_at : {s t u : System} → s ≡ t → Steps t u → Steps s u
begin_at e steps = rw e steps

-- The state after as many write callbacks as messages wait
write_all :
    (s : System) (ms : List Buffer)
    → s.messages ≡ ms
    → Steps s (record s { messages = []; wire = s.wire ++ concat ms })
unfolding on_write progress flush
write_all s [] e = rw (append-nil s.wire, sym e) stay
write_all s (m ∷ ms) e =
    let written : System = record s { messages = ms; wire = s.wire ++ (m ++ []) } in
    let wrote : on_write s ≡ written = rw e in
    arrive (next writes (begin_at wrote (write_all written ms refl))) (
      ap (λ w. record s { messages = []; wire = w })
        (append_assoc s.wire (m ++ []) (concat ms)
          ∙ ap (λ t. s.wire ++ (t ++ concat ms)) (append-nil m)))

-- The state after as many rounds of worker 0 as units wait
work_all :
    (s : System) (us : List Buffer)
    → s.pool.work_units ≡ us
    → s.pool.terminate 0 ≡ false
    → (p : Pool Buffer) × Steps s (record s { pool = p; handled = s.handled ++ us })
unfolding on_work queue_round
work_all s [] e free = (s.pool, rw (append-nil s.handled) stay)
work_all s (u ∷ us) e free =
    let t : System = record s {
      pool = record s.pool { work_units = us };
      handled = s.handled ++ u ∷ [];
    } in
    let worked : on_work 0 s ≡ t = rw (free, e) in
    let (p, steps) = work_all t us refl free in
    (
      p,
      arrive (next (works 0) (begin_at worked steps))
          (ap (λ ms. record s { pool = p; handled = ms }) (append_assoc s.handled (u ∷ []) us)),
    )

whole-IsAligned : (ms : List Buffer) → All IsMessageBuffer ms → IsAligned 0 ms
whole-IsAligned [] sizes = refl
whole-IsAligned (m ∷ ms) sizes = rw sizes.0 (omega arith, whole-IsAligned ms sizes.1)

-- From the start with a work queue that `dynpm_work_queue_init` made, no state of the system after
-- such an interleaving is stuck: where every block that `malloc` returns to the read callback has
-- the message size, there are further callbacks and rounds of the workers after which the workers
-- have taken all messages sent, in order, with no other message sent.
pub all_can_be_handled :
    (n : ℕ) (p : Pool Buffer) (s : System) (fresh : ℕ → Buffer)
    → ((k : ℕ) → IsMessageBuffer (fresh k))
    → work_queue_init n ≡ some p
    → Steps (initial p) s
    → (t : System) × Steps s t × (t.handled ≡ s.sent) × (t.sent ≡ s.sent)
unfolding on_read
all_can_be_handled n p s fresh sizes made steps =
    let written : System = record s { messages = []; wire = s.wire ++ concat s.messages } in
    let writing : Steps s written = write_all s s.messages refl in
    let (ms, h) = steps-Conserves (join steps writing) (initial-Conserves n p made) in
    let reading : Step written (on_read ms 0 [] written) =
      reads fresh ms [] ms 0 sizes (h.on_wire ∙ sym (append-nil (concat ms)))
        (whole-IsAligned ms h.wire_sizes)
        (ap (λ k. server_on_read fresh ms k) h.count
          ∙ server_on_read-concat fresh ms ms sizes h.wire_sizes refl
              (whole-IsAligned ms h.wire_sizes)) in
    let (q, working) =
      work_all (on_read ms 0 [] written) (s.pool.work_units ++ ms)
        (ap (λ (r : Pool Buffer). r.work_units) (add_all-units ms s.pool))
        (ap (λ (r : Pool Buffer). r.terminate 0) (add_all-units ms s.pool) ∙ h.runs 0) in
    (
      record (on_read ms 0 [] written) {
        pool = q;
        handled = s.handled ++ (s.pool.work_units ++ ms);
      },
      join writing (next reading working),
      ap (λ t. s.handled ++ (s.pool.work_units ++ t)) (sym (append-nil ms)) ∙ h.all,
      refl,
    )
