-- ===== src/Shm/Reading.antt =====
-- The reads and the polls of a process of src/shm/shm.c keep the invariant.
use mathlib.Core.Path.{subst, fun_ext}
use libdynpm.Base.{
  ℕ, ◌<◌, ◌≡◌, inl, inr, refl, sym, ◌∙◌, ap, ◌||◌, List, ltb, ◌==◌, take, arith, Bool-cases,
}
use libdynpm.Text.Chars.{Bytes}
use libdynpm.Shm.World.{
  next, previous, update, ManagerControl, World, Code, ok, take_payload, set_malleability_mode,
}
use libdynpm.Shm.Modes.{acknowledge, sync_processes_meta, conclude, get_malleability_mode}
use libdynpm.Shm.Trace.{Trace, note_received, current, Inv}
use libdynpm.Shm.Steps.{ReadBy, nothing_new, new_payload, lost}
use libdynpm.Shm.Invariant.{take_payload-Inv, keeps-Inv, update_same}

-- The trace after a read by process `i`.
abbrev pub after_read : Trace → ℕ → World × Bytes × Code → Trace
after_read t i r = record t {
  world = r.0;
  received = update t.received i (note_received r.1 (t.received i));
}

-- A read of process `i` ends well, and keeps the invariant.
pub read-Inv :
    {n : ℕ} {t : Trace} (i : ℕ)
    → Inv n t
    → i < n
    → {r : World × Bytes × Code} → ReadBy i t.world r
    → (r.2 ≡ ok) × Inv n (after_read t i r)
read-Inv {n} {t} i inv lt (nothing_new {r} level e) =
    let w = record t.world { views = update t.world.views i t.world.shm_manager } in
    subst (λ (x : World × Bytes × Code). (x.2 ≡ ok) × Inv n (after_read t i x)) (sym e)
      (
        refl,
        subst (λ (g : ℕ → List Bytes). Inv n (record t { world = w; received = g }))
            (sym (fun_ext (update_same t.received i)))
            (keeps-Inv w inv refl refl refl inv.shared inv.same (λ j. refl)),
      )
read-Inv {n} {t} i inv lt (new_payload {r} level e) =
    let w = take_payload i t.world.shm_manager t.world in
    let shown : take t.world.shm_manager.payload_bytes t.world.shm_payload ≡ current t.world =
      ap (λ (m : ManagerControl). take m.payload_bytes t.world.shm_payload) inv.shared in
    let lacks : (t.world.processes i).read_count ≡ previous t.world.manager.write_count =
      level ∙ ap (λ (m : ManagerControl). previous m.write_count) inv.shared in
    subst (λ (x : World × Bytes × Code). (x.2 ≡ ok) × Inv n (after_read t i x)) (sym e)
      (
        refl,
        subst (λ (p : Bytes). Inv n (after_read t i (w, p, ok))) (sym shown)
            (take_payload-Inv i inv lt lacks),
      )
read-Inv {n} {t} i inv lt (lost {r} ne ne') =
    let writes = ap (λ (m : ManagerControl). m.write_count) inv.shared in
    absurd (elim (inv.served i lt) [
      | inl level ↦ ne (level.0 ∙ sym writes)
      | inr behind ↦ ne' (behind.0 ∙ ap previous (sym writes))
    ])

pub mode-Inv :
    {n : ℕ} {t : Trace} (i mode : ℕ)
    → Inv n t
    → Inv n (record t { world = set_malleability_mode i mode t.world })
unfolding set_malleability_mode
mode-Inv {t = t} i mode inv =
    keeps-Inv (set_malleability_mode i mode t.world) inv refl refl refl inv.shared
      (λ j. ground (arith, inv.same j)) (λ j. ground arith)

pub acknowledge-Inv :
    {n : ℕ} (t : Trace) (k : ℕ) (w : World)
    → Inv n (record t { world = w })
    → Inv n (record t { world = acknowledge k w })
unfolding acknowledge
acknowledge-Inv {n} t k w inv = elim (Bool-cases (ltb 0 k)) [
  | inl updates ↦ rw updates (
      keeps-Inv {t = record t { world = w }}
        (record w {
          manager = record w.manager { read_count = next w.manager.read_count };
          shm_manager = record w.manager { read_count = next w.manager.read_count };
        })
        inv refl refl refl refl inv.same (λ j. refl))
  | inr no_updates ↦ rw no_updates inv
]

pub poll-Inv :
    {n : ℕ} {t : Trace} → Inv n t → Inv n (record t { world = (get_malleability_mode t.world).0 })
unfolding get_malleability_mode conclude
poll-Inv {n} {t} inv =
    let w = (sync_processes_meta t.world).0 in
    let k = (sync_processes_meta t.world).1 in
    let copied : Inv n (record t { world = w }) =
      unfold sync_processes_meta in
      keeps-Inv (sync_processes_meta t.world).0 inv refl refl refl inv.shared inv.same
        (λ j. refl) in
    elim (Bool-cases (k == w.manager.process_count || k == 0)) [
      | inl known ↦ rw known (acknowledge-Inv t k w copied)
      | inr unknown ↦ rw unknown copied
    ]
