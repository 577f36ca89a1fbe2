-- ===== src/Network/Client/Entries.antt =====
-- Counting and finding the entries of the client's table.
use libdynpm.Base.{
  ℕ, zero, suc, ◌+◌, ◌≤◌, ◌<◌, ◌≡◌, ◌≢◌, refl, ◌∙◌, ap, [], ◌∷◌, List, Option, none, some, length,
  get_elem?, set, replicate, arith,
}
use libdynpm.Network.Client.Table.{ServerConnection, find_free}

-- The number of entries that are not null
pub occupied : List (Option ServerConnection) → ℕ
occupied [] = 0
occupied (none ∷ table) = occupied table
occupied (some s ∷ table) = 1 + occupied table

pub occupied-le : (table : List (Option ServerConnection)) → occupied table ≤ length table
unfolding occupied
occupied-le [] = omega arith
occupied-le (none ∷ table) = omega (arith, occupied-le table)
occupied-le (some s ∷ table) = omega (arith, occupied-le table)

pub occupied-replicate : (n : ℕ) → occupied (replicate n none) ≡ 0
unfolding occupied
occupied-replicate zero = refl
occupied-replicate (suc n) = occupied-replicate n

-- Filling a null entry counts one more, and clearing an entry in use one less.
pub occupied-fill :
    (table : List (Option ServerConnection)) (i : ℕ) (s : ServerConnection)
    → get_elem? table i ≡ some none
    → occupied (set table i (some s)) ≡ occupied table + 1
unfolding occupied
occupied-fill [] i s h = cc
occupied-fill (none ∷ table) zero s h = omega arith
occupied-fill (some t ∷ table) zero s h = cc
occupied-fill (none ∷ table) (suc i) s h = occupied-fill table i s h
occupied-fill (some t ∷ table) (suc i) s h = omega (arith, occupied-fill table i s h)

pub occupied-clear :
    (table : List (Option ServerConnection)) (i : ℕ) {s : ServerConnection}
    → get_elem? table i ≡ some (some s)
    → occupied (set table i none) + 1 ≡ occupied table
unfolding occupied
occupied-clear [] i h = cc
occupied-clear (none ∷ table) zero h = cc
occupied-clear (some t ∷ table) zero h = omega arith
occupied-clear (none ∷ table) (suc i) h = occupied-clear table i h
occupied-clear (some t ∷ table) (suc i) h = omega (arith, occupied-clear table i h)

pub occupied-replace :
    (table : List (Option ServerConnection)) (i : ℕ) {s : ServerConnection} (t : ServerConnection)
    → get_elem? table i ≡ some (some s)
    → occupied (set table i (some t)) ≡ occupied table
unfolding occupied
occupied-replace [] i t h = cc
occupied-replace (none ∷ table) zero t h = cc
occupied-replace (some s ∷ table) zero t h = refl
occupied-replace (none ∷ table) (suc i) t h = occupied-replace table i t h
occupied-replace (some s ∷ table) (suc i) t h = omega (arith, occupied-replace table i t h)

pub occupied-clear_null :
    (table : List (Option ServerConnection)) (i : ℕ)
    → get_elem? table i ≡ some none
    → occupied (set table i none) ≡ occupied table
unfolding occupied
occupied-clear_null [] i h = cc
occupied-clear_null (none ∷ table) zero h = refl
occupied-clear_null (some t ∷ table) zero h = cc
occupied-clear_null (none ∷ table) (suc i) h = occupied-clear_null table i h
occupied-clear_null (some t ∷ table) (suc i) h = omega (arith, occupied-clear_null table i h)

-- With an entry to spare the search ends at the first null entry.
pub find_free_lem :
    (table : List (Option ServerConnection)) (k : ℕ)
    → occupied table < length table
    → (j : ℕ) × (find_free table k ≡ some (k + j))
      × (get_elem? table j ≡ some none)
      × ((l : ℕ) → l < j → get_elem? table l ≢ some none)
unfolding occupied find_free
find_free_lem [] k h = absurd (omega arith)
find_free_lem (none ∷ table) k h = (0, ap some (omega arith), refl, λ l lt. absurd (omega arith))
find_free_lem (some s ∷ table) k h =
    let (j, found, null, first) = find_free_lem table (k + 1) (omega arith) in
    (suc j, found ∙ ap some (omega arith), null, later j first)
  where
    later :
        (j : ℕ)
        → ((l : ℕ) → l < j → get_elem? table l ≢ some none)
        → (l : ℕ) → l < suc j
        → get_elem? (some s ∷ table) l ≢ some none
    later j first zero lt = λ e. cc
    later j first (suc l) lt = first l (omega arith)
