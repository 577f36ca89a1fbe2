-- ===== src/Network/Server/Startup/Ports.antt =====
-- The loop of src/network/server.c over a range of ports ends at the first one that is not in use.
use libdynpm.Base.{
  ℕ, zero, suc, ◌+◌, ◌≤◌, ◌<◌, ◌≡◌, ◌∙◌, refl, ap, Option, none, some, ◌⊎◌, inl, inr, arith, ◌≢◌,
}
use native.Mathlib.Decide.{ℕ_discrete}
use mathlib.Core.Path.{subst}
use libdynpm.Network.Server.Startup.{Bind, try_ports, bound, in_use, refused, htons}

-- Every port from `lo` on and below `hi` is in use.
abbrev pub AllInUse : (ℕ → Bind) → ℕ → ℕ → Type 0
AllInUse bind lo hi = (q : ℕ) → lo ≤ q → q < hi → bind q ≡ in_use

-- `error_code` behind the last port
abbrev ended : ℕ → Option Bind → Option Bind
ended zero last = last
ended (suc rounds) last = some in_use

-- The port in `serv_addr` behind the last port
abbrev pub last_port : ℕ → ℕ → ℕ → ℕ
last_port zero p addr = addr
last_port (suc rounds) p addr = htons (p + rounds)

last_port_lem : (n p : ℕ) → last_port n (p + 1) (htons p) ≡ htons (p + n)
last_port_lem zero p = ap (λ k. htons k) (omega arith)
last_port_lem (suc n) p = ap (λ k. htons k) (omega arith)

-- How a loop over the ports ends: at the first port not in use, or behind the last.
abbrev Tried : (ℕ → Bind) → ℕ → ℕ → Option Bind → ℕ → Option Bind × ℕ × ℕ → Type 0
Tried bind rounds p last addr r =
    ((q : ℕ) × (p ≤ q)
      × (q < p + rounds)
      × AllInUse bind p q
      × (bind q ≢ in_use)
      × (r ≡ (some (bind q), q, htons q)))
    ⊎ (AllInUse bind p (p + rounds)
        × (r ≡ (ended rounds last, p + rounds, last_port rounds p addr)))

in_use_first :
    (bind : ℕ → Bind) (p hi : ℕ) → bind p ≡ in_use → AllInUse bind (p + 1) hi → AllInUse bind p hi
in_use_first bind p hi e all q lo h = elim (ℕ_discrete p q) [
  | yes same ↦ subst (λ k. bind k ≡ in_use) same e
  | no other ↦ all q (omega arith) h
]

pub Bind-three : (b : Bind) → (b ≡ bound) ⊎ (b ≡ in_use) ⊎ (b ≡ refused)
Bind-three bound = inl refl
Bind-three in_use = inr (inl refl)
Bind-three refused = inr (inr refl)

Bind-cases : (b : Bind) → (b ≡ in_use) ⊎ (b ≢ in_use)
Bind-cases bound = inr (λ e. cc e)
Bind-cases in_use = inl refl
Bind-cases refused = inr (λ e. cc e)

stop_at :
    (b : Bind) (rest : Option Bind × ℕ × ℕ) (p : ℕ)
    → b ≢ in_use
    → (elim b as (λ _. Option Bind × ℕ × ℕ) [ in_use ↦ rest | other ↦ (some other, p, htons p) ])
      ≡ (some b, p, htons p)
stop_at bound rest p other = refl
stop_at in_use rest p other = absurd (other refl)
stop_at refused rest p other = refl

step_used :
    (bind : ℕ → Bind) (rounds p addr : ℕ) (last : Option Bind)
    → bind p ≡ in_use
    → try_ports bind (suc rounds) p last addr
      ≡ try_ports bind rounds (p + 1) (some in_use) (htons p)
unfolding try_ports
step_used bind rounds p addr last e =
    ap
      (λ (b : Bind). elim b as (λ _. Option Bind × ℕ × ℕ) [
        | in_use ↦ try_ports bind rounds (p + 1) (some in_use) (htons p)
        | other ↦ (some other, p, htons p)
      ])
      e

ended_in_use : (n : ℕ) → ended n (some in_use) ≡ some in_use
ended_in_use zero = refl
ended_in_use (suc n) = refl

pub try_ports_lem :
    (bind : ℕ → Bind) (rounds p addr : ℕ) (last : Option Bind)
    → Tried bind rounds p last addr (try_ports bind rounds p last addr)
unfolding try_ports
try_ports_lem bind zero p addr last =
    inr ((λ q lo h. absurd (omega arith)), ap (λ (k : ℕ). (last, k, addr)) (omega arith))
try_ports_lem bind (suc rounds) p addr last = elim (Bind-cases (bind p)) [
  | inl used ↦ elim (try_ports_lem bind rounds (p + 1) (htons p) (some in_use)) [
    | inl (q, lo, hi, before, free, ran) ↦ inl (
      q,
      omega arith,
      omega arith,
      in_use_first bind p q used before,
      free,
      step_used bind rounds p addr last used ∙ ran,
    )
    | inr (all, ran) ↦
        let there : p + 1 + rounds ≡ p + suc rounds = omega arith in
        inr (
          (λ q lo hi. in_use_first bind p (p + 1 + rounds) used all q lo (omega arith)),
          step_used bind rounds p addr last used
              ∙ ran
              ∙ ap (λ (k : ℕ). (ended rounds (some in_use), k, last_port rounds (p + 1) (htons p)))
                  there
              ∙ ap (λ (o : Option Bind). (o, p + suc rounds, last_port rounds (p + 1) (htons p)))
                  (ended_in_use rounds)
              ∙ ap (λ (k : ℕ). (some in_use, p + suc rounds, k)) (last_port_lem rounds p),
        )
  ]
  | inr stops ↦ inl (
    p,
    omega arith,
    omega arith,
    (λ q lo hi. absurd (omega arith)),
    stops,
    stop_at (bind p) (try_ports bind rounds (p + 1) (some in_use) (htons p)) p stops,
  )
]

-- The end of a loop of at least one round over ports that are all in use
pub all_used :
    (n lo hi addr : ℕ)
    → lo + n ≡ hi + 1
    → lo ≤ hi
    → (ended n none ≡ some in_use) × (last_port n lo addr ≡ htons hi)
all_used zero lo hi addr e h = absurd (omega arith)
all_used (suc n) lo hi addr e h = (refl, ap (λ k. htons k) (omega arith))
