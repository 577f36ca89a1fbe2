-- ===== src/Network/System/Conservation.antt =====
-- Between the client's sends and the workers of the server, no message is lost, repeated or overtaken.
use libdynpm.Base.{
  ℕ, ◌≡◌, refl, ◌∙◌, ap, sym, false, [], ◌∷◌, ◌++◌, List, All, some, inl, inr, append_assoc,
  append-nil,
}
use libdynpm.Text.Chars.{Bytes}
use libdynpm.Text.Outcome.{done}
use libdynpm.Text.Buffer.{Buffer}
use libdynpm.Protocol.Frame.{IsMessageBuffer}
use libdynpm.Network.Queue.{enqueue-append, progress, flush}
use libdynpm.Network.Receive.{concat, server_on_read}
use libdynpm.Network.Receive.Blocks.{IsAligned, server_on_read_lem}
use libdynpm.Network.Wire.{front_of_wire}
use libdynpm.Network.Pool.{Pool, work_queue_init, work_queue_add}
use libdynpm.Network.Pool.Order.{add_unit-append, units_cases, queue_round-cases, init-runs}
use libdynpm.Network.System.{
  System, on_send, on_write, add_all, on_read, on_work, Step, sends, writes, reads, works, Steps,
  stay, next, initial,
}

-- The bytes on the connection are those of `ms`; the messages handled, in the work queue, on the
-- connection and in the client's queue are those sent, in order; and no worker is told to end.
pub record Holds (s : System) (ms : List Buffer) : Type 0 where
  pub count : s.message_bytes_read ≡ 0
  pub on_wire : s.wire ≡ concat ms
  pub wire_sizes : All IsMessageBuffer ms
  pub queue_sizes : All IsMessageBuffer s.messages
  pub all : s.handled ++ (s.pool.work_units ++ (ms ++ s.messages)) ≡ s.sent
  pub runs : (i : ℕ) → s.pool.terminate i ≡ false

abbrev pub Conserves : System → Type 0
Conserves s = (ms : List Buffer) × Holds s ms

All-append : (P : Buffer → Type 0) (xs ys : List Buffer) → All P xs → All P ys → All P (xs ++ ys)
All-append P [] ys a b = b
All-append P (x ∷ xs) ys a b = (a.0, All-append P xs ys a.1 b)

concat-append : (xs ys : List Buffer) → concat (xs ++ ys) ≡ concat xs ++ concat ys
concat-append [] ys = refl
concat-append (x ∷ xs) ys =
    ap (λ t. x ++ t) (concat-append xs ys) ∙ sym (append_assoc x (concat xs) (concat ys))

pub add_all-units :
    (messages : List Buffer) (p : Pool Buffer)
    → add_all messages p ≡ record p { work_units = p.work_units ++ messages }
unfolding add_all work_queue_add
add_all-units [] p = ap (λ us. record p { work_units = us }) (sym (append-nil p.work_units))
add_all-units (m ∷ messages) p =
    add_all-units messages (work_queue_add m p)
    ∙ ap (λ us. record p { work_units = us ++ messages }) (add_unit-append m p.work_units)
    ∙ ap (λ us. record p { work_units = us }) (append_assoc p.work_units (m ∷ []) messages)

append_last :
    (xs bs cs ds : List Buffer) (d : Buffer)
    → (xs ++ (bs ++ (cs ++ ds))) ++ d ∷ [] ≡ xs ++ (bs ++ (cs ++ (ds ++ d ∷ [])))
append_last xs bs cs ds d = simp append_assoc

on_send-Holds :
    (s : System) (ms : List Buffer) (b : Buffer)
    → IsMessageBuffer b
    → Holds s ms
    → Holds (on_send b s) ms
unfolding on_send
on_send-Holds s ms b size h = record {
  count = h.count;
  on_wire = h.on_wire;
  wire_sizes = h.wire_sizes;
  queue_sizes =
      rw (enqueue-append b s.messages)
        (All-append IsMessageBuffer s.messages (b ∷ []) h.queue_sizes (size, tt));
  all =
      rw (enqueue-append b s.messages) (
        sym (append_last s.handled s.pool.work_units ms s.messages b)
        ∙ ap (λ t. t ++ b ∷ []) h.all);
  runs = h.runs;
}

on_write-Conserves : (s : System) (ms : List Buffer) → Holds s ms → Conserves (on_write s)
unfolding on_write progress flush
on_write-Conserves s ms h = elim (units_cases s.messages) [
  | inl none_waits ↦ rw none_waits (
    ms,
    record {
      count = h.count;
      on_wire = append-nil s.wire ∙ h.on_wire;
      wire_sizes = h.wire_sizes;
      queue_sizes = tt;
      all = ap (λ t. s.handled ++ (s.pool.work_units ++ (ms ++ t))) (sym none_waits) ∙ h.all;
      runs = h.runs;
    },
  )
  | inr (m, rest, e) ↦ rw e (
    ms ++ m ∷ [],
    record {
      count = h.count;
      on_wire = ap (λ w. w ++ concat (m ∷ [])) h.on_wire ∙ sym (concat-append ms (m ∷ []));
      wire_sizes =
          All-append IsMessageBuffer ms (m ∷ []) h.wire_sizes ((rw e at h.queue_sizes).0, tt);
      queue_sizes = (rw e at h.queue_sizes).1;
      all =
          ap (λ t. s.handled ++ (s.pool.work_units ++ t))
            (append_assoc ms (m ∷ []) rest ∙ ap (λ t. ms ++ t) (sym e))
          ∙ h.all;
      runs = h.runs;
    },
  )
]

on_work-Holds : (s : System) (ms : List Buffer) (i : ℕ) → Holds s ms → Holds (on_work i s) ms
unfolding on_work
on_work-Holds s ms i h = elim (queue_round-cases i s.pool) [
  | inl told ↦ rw told h
  | inr (inl idle) ↦ rw idle h
  | inr (inr (u, rest, some_left, free, taken)) ↦ rw taken (record {
    count = h.count;
    on_wire = h.on_wire;
    wire_sizes = h.wire_sizes;
    queue_sizes = h.queue_sizes;
    all =
        append_assoc s.handled (u ∷ []) (rest ++ (ms ++ s.messages))
        ∙ ap (λ t. s.handled ++ (t ++ (ms ++ s.messages))) (sym some_left)
        ∙ h.all;
    runs = h.runs;
  })
]

-- What a read callback leaves, whichever bytes it gets from the front of the connection
on_read-Conserves :
    (s : System) (ms : List Buffer) (fresh : ℕ → Buffer) (chunks : List Bytes) (rest : Bytes)
    (messages : List Buffer) (left : ℕ)
    → ((k : ℕ) → IsMessageBuffer (fresh k))
    → s.wire ≡ concat chunks ++ rest
    → IsAligned 0 chunks
    → server_on_read fresh chunks s.message_bytes_read ≡ done (messages, left)
    → Holds s ms
    → Conserves (on_read messages left rest s)
unfolding on_read
on_read-Conserves s ms fresh chunks rest messages left sizes front aligned ran h =
    let (units, taken, bytes, full) = server_on_read_lem fresh chunks sizes aligned in
    let same : done (units, 0) ≡ done (messages, left) =
      sym taken ∙ ap (λ n. server_on_read fresh chunks n) (sym h.count) ∙ ran in
    let are : units ≡ messages = cc same in
    let (others, split, after, fit) =
      front_of_wire units ms rest full h.wire_sizes
        (ap (λ w. w ++ rest) bytes ∙ sym front ∙ h.on_wire) in
    (
      others,
      record {
        count = cc same;
        on_wire = after;
        wire_sizes = fit;
        queue_sizes = h.queue_sizes;
        all = rw (add_all-units messages s.pool) (
            ap (λ t. s.handled ++ t)
              (append_assoc s.pool.work_units messages (others ++ s.messages)
                ∙ ap (λ t. s.pool.work_units ++ t)
                    (sym (append_assoc messages others s.messages)
                      ∙ ap (λ t. t ++ s.messages) (ap (λ us. us ++ others) (sym are) ∙ sym split)))
            ∙ h.all);
        runs = rw (add_all-units messages s.pool) h.runs;
      },
    )

step-Conserves : {s t : System} → Step s t → Conserves s → Conserves t
step-Conserves (sends {s} b size) (ms, h) = (ms, on_send-Holds s ms b size h)
step-Conserves (writes {s}) (ms, h) = on_write-Conserves s ms h
step-Conserves (reads {s} fresh chunks rest messages left sizes front aligned ran) (ms, h) =
    on_read-Conserves s ms fresh chunks rest messages left sizes front aligned ran h
step-Conserves (works {s} i) (ms, h) = (ms, on_work-Holds s ms i h)

pub steps-Conserves : {s t : System} → Steps s t → Conserves s → Conserves t
steps-Conserves stay v = v
steps-Conserves (next step steps) v = steps-Conserves steps (step-Conserves step v)

pub initial-Conserves :
    (n : ℕ) (p : Pool Buffer) → work_queue_init n ≡ some p → Conserves (initial p)
initial-Conserves n p made =
    let (none_waits, free) = init-runs n p made in
    (
      [],
      record {
        count = refl;
        on_wire = refl;
        wire_sizes = tt;
        queue_sizes = tt;
        all = append-nil p.work_units ∙ none_waits;
        runs = free;
      },
    )

-- From the start with a work queue that `dynpm_work_queue_init` made, after any interleaving of
-- sends of whole messages, write callbacks whose writes succeed, read callbacks that get bytes from
-- the front of the connection in chunks that do not cross the end of a message and the last of
-- which ends with one, and rounds of the workers: the bytes on the connection are those of whole
-- messages, and the messages taken by the workers, then those in the work queue, then those on the
-- connection, then those that wait at the client are the messages sent, in order. No message is
-- lost, repeated or overtaken.
pub sent_in_order :
    (n : ℕ) (p : Pool Buffer) (s : System)
    → work_queue_init n ≡ some p
    → Steps (initial p) s
    → (on_wire : List Buffer) × (s.wire ≡ concat on_wire)
      × (s.handled ++ (s.pool.work_units ++ (on_wire ++ s.messages)) ≡ s.sent)
sent_in_order n p s made steps =
    let (ms, h) = steps-Conserves steps (initial-Conserves n p made) in (ms, h.on_wire, h.all)
