-- ===== src/Tests/Sharing.antt =====
-- The shared memory of the manager and two processes.
use libdynpm.Base.{ℕ, ◌≡◌, ◌≢◌, ◌<◌, ◌⊎◌, refl, arith, [], ◌∷◌, ◌++◌, List, All, ◌+◌, ◌-◌}
use libdynpm.Shm.World.{World, ok, start, process_read, set_malleability_mode, u32}
use libdynpm.Shm.Modes.{
  conclude, sync_processes_meta, get_malleability_mode, out_of_sync, matching, never_out_of_sync,
  modes_agree,
}
use libdynpm.Shm.Trace.{Action, run, current, write, read, set_mode, poll}
use libdynpm.Shm.Delivery.{IsIn, begin, received_in_order, read_never_misses}

-- Two processes with a page for each block.
abbrev attached : World
attached = start 5 6 1 1 (λ i. 100 + i) 2 99 []

-- Two payloads, of which process 1 has read the first only.
abbrev session : List Action
session = write (1 ∷ 2 ∷ []) ∷ read 0 ∷ read 1 ∷ set_mode 1 3 ∷ poll ∷ write (9 ∷ []) ∷ read 0 ∷ []

session_is_valid : All (IsIn 2) session
session_is_valid = (tt, (omega arith, (omega arith, (omega arith, (tt, (tt, (omega arith, tt)))))))

received_in_order_example :
    ((run session (begin attached)).received 1 ≡ (run session (begin attached)).sent)
    ⊎ ((run session (begin attached)).received 1
          ++ current (run session (begin attached)).world ∷ []
        ≡ (run session (begin attached)).sent)
received_in_order_example =
    received_in_order 5 6 1 1 (λ i. 100 + i) 2 99 [] session session_is_valid 1 (omega arith)

read_never_misses_example : (process_read 1 (run session (begin attached)).world).2 ≡ ok
read_never_misses_example =
    read_never_misses 5 6 1 1 (λ i. 100 + i) 2 99 [] session session_is_valid 1 (omega arith)

-- One of the two processes has set its mode.
abbrev half_set : World
half_set = set_malleability_mode 1 3 attached

half_set_count : half_set.manager.read_count ≡ 0
unfolding start set_malleability_mode
half_set_count = refl

half_set_few :
    (i : ℕ) → i < half_set.manager.process_count → (half_set.shm_process i).write_count < u32 - 1
unfolding start set_malleability_mode
half_set_few i h = ground arith

never_out_of_sync_example :
    ((get_malleability_mode half_set).0.manager ≡ half_set.manager)
    × ((get_malleability_mode half_set).1.1 ≢ out_of_sync)
never_out_of_sync_example = never_out_of_sync half_set half_set_count half_set_few

attached_matches : (get_malleability_mode attached).1.1 ≡ matching
unfolding start get_malleability_mode conclude sync_processes_meta
attached_matches = refl

attached_count : 1 < attached.manager.process_count
unfolding start
attached_count = omega arith

modes_agree_example :
    (attached.shm_process 1).malleability_mode ≡ (get_malleability_mode attached).1.0
modes_agree_example = modes_agree attached 1 attached_matches attached_count
