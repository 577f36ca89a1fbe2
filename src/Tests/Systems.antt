-- ===== src/Tests/Systems.antt =====
-- A client and a server with two messages, one of which has been handled.
use libdynpm.Base.{
  ℕ, ◌≡◌, refl, [], ◌∷◌, ◌++◌, List, some, sym, false, append-nil, replicate, length-replicate,
  arith,
}
use libdynpm.Network.Queue.{progress, flush, enqueue}
use libdynpm.Text.Buffer.{Buffer}
use libdynpm.Protocol.Frame.{IsMessageBuffer}
use libdynpm.Network.Pool.{Pool, indexes, work_queue_init}
use libdynpm.Network.Receive.{concat}
use libdynpm.Network.Receive.Blocks.{IsAligned}
use libdynpm.Network.Wire.{server_on_read-concat}
use libdynpm.Network.System.{
  System, on_send, on_write, on_read, on_work, sends, writes, reads, works, Steps, stay, next,
  initial,
}
use libdynpm.Network.System.Conservation.{sent_in_order}
use libdynpm.Network.System.Progress.{all_can_be_handled}
use libdynpm.Tests.Data.{empty_buffer, empty_buffer-IsMessageBuffer}

abbrev staff : Pool Buffer
staff = record { work_units = []; thread_data = indexes 2; terminate = λ i. false }

staff_made : work_queue_init 2 ≡ some staff
unfolding work_queue_init
staff_made = refl

-- Two messages are sent, one is written and read, the first is sent again, and a worker takes a
-- message.
abbrev morning : Buffer → Buffer → System
morning a b =
    on_work 1 (on_send a (on_read (a ∷ []) 0 [] (on_write (on_send b (on_send a (initial staff))))))

morning_lem :
    (a b : Buffer) → IsMessageBuffer a → IsMessageBuffer b → Steps (initial staff) (morning a b)
unfolding on_send on_write progress flush enqueue
morning_lem a b size size' =
    let whole : IsAligned 0 (a ∷ []) = rw size (omega arith, refl) in
    next (sends a size) (
      next (sends b size') (
        next writes (
          next
            (reads (λ k. a) (a ∷ []) [] (a ∷ []) 0 (λ k. size) (sym (append-nil (concat (a ∷ []))))
              whole
              (server_on_read-concat (λ k. a) (a ∷ []) (a ∷ []) (λ k. size) (size, tt) refl whole))
            (next (sends a size) (next (works 1) stay)))))

abbrev other_buffer : Buffer
other_buffer = replicate 4096 8

abbrev midday : System
midday = morning empty_buffer other_buffer

midday_lem : Steps (initial staff) midday
midday_lem =
    morning_lem empty_buffer other_buffer empty_buffer-IsMessageBuffer
      (length-replicate {A = ℕ} 4096 8)

sent_in_order_example :
    (on_wire : List Buffer) × (midday.wire ≡ concat on_wire)
    × (midday.handled ++ (midday.pool.work_units ++ (on_wire ++ midday.messages)) ≡ midday.sent)
sent_in_order_example = sent_in_order 2 staff midday staff_made midday_lem

all_can_be_handled_example :
    (t : System) × Steps midday t × (t.handled ≡ midday.sent) × (t.sent ≡ midday.sent)
all_can_be_handled_example =
    all_can_be_handled 2 staff midday (λ k. empty_buffer) (λ k. empty_buffer-IsMessageBuffer)
      staff_made midday_lem
