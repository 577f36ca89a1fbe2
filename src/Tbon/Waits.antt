-- ===== src/Tbon/Waits.antt =====
-- The waits of src/network/tbon.c, and the deadlines that they compute.
use libdynpm.Base.{
  ℕ, ◌+◌, ◌*◌, ◌≡◌, Option, none, some, ltb, if◌then◌else◌, arith, ap, not, ◌⊎◌, inl, inr,
}
use libdynpm.Tbon.Vertex.{Vertex}

-- What `gettimeofday` gives.
pub record Timeval : Type 0 where
  pub tv_sec : ℕ
  pub tv_usec : ℕ

pub record Timespec : Type 0 where
  pub tv_sec : ℕ
  pub tv_nsec : ℕ

-- `_create_time_offset`
unfoldable pub create_time_offset : Timeval → ℕ → ℕ → Timespec
create_time_offset now seconds nanoseconds = record {
  tv_sec = now.tv_sec + seconds;
  tv_nsec = now.tv_usec + nanoseconds;
}

-- `dynpm_tbon_children_done_wait_timeout`: the deadline given to `pthread_cond_timedwait`, or `none`
-- where it does not wait.
unfoldable pub children_done_wait : Vertex → Timeval → ℕ → ℕ → Option Timespec
unfolding create_time_offset
children_done_wait v now seconds nanoseconds =
    if ltb 0 v.total_children
    then if ltb v.children_done v.total_children
      then some (create_time_offset now seconds nanoseconds)
      else none
    else none

-- `dynpm_tbon_finalized_wait_timeout`
unfoldable pub finalized_wait : Vertex → Timeval → ℕ → ℕ → Option Timespec
unfolding create_time_offset
finalized_wait v now seconds nanoseconds =
    if not v.finalized then some (create_time_offset now seconds nanoseconds) else none

-- `dynpm_tbon_initialized_wait_timeout`
unfoldable pub initialized_wait : Vertex → Timeval → ℕ → ℕ → Option Timespec
unfolding create_time_offset
initialized_wait v now seconds nanoseconds =
    if not v.initialized then some (create_time_offset now seconds nanoseconds) else none

-- Times as nanoseconds
abbrev pub of_timeval : Timeval → ℕ
of_timeval t = t.tv_sec * 1000000000 + t.tv_usec * 1000

abbrev pub of_timespec : Timespec → ℕ
of_timespec t = t.tv_sec * 1000000000 + t.tv_nsec

-- Each of the three waits, where it waits, has a deadline that comes 999 nanoseconds too early for each
-- microsecond of the present second, counted from the time and the interval that it is called with.
pub wait_too_short :
    (v : Vertex) (now : Timeval) (seconds nanoseconds : ℕ) (deadline : Timespec)
    → (children_done_wait v now seconds nanoseconds ≡ some deadline)
      ⊎ (finalized_wait v now seconds nanoseconds ≡ some deadline)
      ⊎ (initialized_wait v now seconds nanoseconds ≡ some deadline)
    → of_timespec deadline + 999 * now.tv_usec
      ≡ of_timeval now + (seconds * 1000000000 + nanoseconds)
unfolding children_done_wait finalized_wait initialized_wait
wait_too_short v now seconds nanoseconds deadline h =
    let same : create_time_offset now seconds nanoseconds ≡ deadline = elim h [
      | inl a ↦ ground arith
      | inr (inl b) ↦ ground arith
      | inr (inr d) ↦ ground arith
    ] in
    omega (arith, ap (λ (t : Timespec). t.tv_sec) same, ap (λ (t : Timespec). t.tv_nsec) same)
