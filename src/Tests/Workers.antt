-- ===== src/Tests/Workers.antt =====
-- The work queue of two workers.
use libdynpm.Base.{ℕ, ◌≡◌, ◌≢◌, ◌++◌, refl, [], ◌∷◌, List, All, arith, some, false}
use libdynpm.Network.Pool.{Pool, indexes, work_queue_init}
use libdynpm.Network.Pool.Order.{
  Event, IsIn, act, run, begin, taken_in_order, none_taken_after_finalize, add, worker, finalize,
}

abbrev two_workers : Pool ℕ
two_workers = record { work_units = []; thread_data = indexes 2; terminate = λ i. false }

two_workers_made : work_queue_init 2 ≡ some two_workers
unfolding work_queue_init
two_workers_made = refl

abbrev shift : List (Event ℕ)
shift = add 7 ∷ worker 1 ∷ worker 0 ∷ add 8 ∷ add 9 ∷ worker 0 ∷ []

shift_goes_on : All (λ e. e ≢ finalize) shift
shift_goes_on =
    ((λ e. cc e), ((λ e. cc e), ((λ e. cc e), ((λ e. cc e), ((λ e. cc e), ((λ e. cc e), tt))))))

taken_in_order_example :
    (run shift (begin two_workers)).taken ++ (run shift (begin two_workers)).pool.work_units
    ≡ (run shift (begin two_workers)).added
taken_in_order_example = taken_in_order 2 two_workers shift two_workers_made shift_goes_on

abbrev night : List (Event ℕ)
night = add 5 ∷ worker 1 ∷ worker 0 ∷ []

night_is_valid : All (IsIn 2) night
night_is_valid = (tt, (omega arith, (omega arith, tt)))

none_taken_after_finalize_example :
    (run night (act finalize (run shift (begin two_workers)))).taken
    ≡ (run shift (begin two_workers)).taken
none_taken_after_finalize_example =
    none_taken_after_finalize 2 two_workers shift night two_workers_made shift_goes_on
      night_is_valid
