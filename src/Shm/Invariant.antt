-- ===== src/Shm/Invariant.antt =====
-- How far each process has read, kept by every operation of src/shm/shm.c.
use mathlib.Core.Path.{ap₂, subst, subst₂}
use libdynpm.Base.{
  take-all, ℕ, ◌<◌, ◌≡◌, ◌≢◌, inl, inr, refl, sym, ◌∙◌, ap, List, [], ◌∷◌, ◌++◌, length, take, drop,
  take-append, arith,
}
use native.Mathlib.Decide.{ℕ_discrete}
use libdynpm.Text.Chars.{Bytes}
use libdynpm.Shm.World.{
  next, previous, update, update_self, update_ne, ProcessControl, World, Code, ok, publish,
  take_payload,
}
use libdynpm.Shm.Trace.{Trace, note_sent, note_received, current, IsServed, Inv}
use libdynpm.Shm.Steps.{Written, previous_ne, previous-next, next-previous, refused, published}

-- A process that passed the manager's test has read all.
pub served_all :
    {n : ℕ} {t : Trace} (inv : Inv n t) (i : ℕ)
    → i < n
    → (t.world.shm_process i).read_count ≡ t.world.manager.write_count
    → t.received i ≡ t.sent
served_all {t = t} inv i lt e = elim (inv.served i lt) [
  | inl all ↦ all.1
  | inr behind ↦ absurd (
      previous_ne t.world.manager.write_count inv.word
        (sym behind.0 ∙ ap (λ (p : ProcessControl). p.read_count) (sym (inv.same i)) ∙ e))
]

pub ne_nil_of_pos : (p : Bytes) → 0 < length p → p ≢ []
ne_nil_of_pos [] h = absurd (omega arith)
ne_nil_of_pos (c ∷ p) h = λ e. cc

-- After a write every process is one payload behind.
pub publish-Inv :
    {n : ℕ} {t : Trace} (p : Bytes) (copies : ℕ → ProcessControl)
    → Inv n t
    → 0 < length p
    → ((i : ℕ)
        → i < t.world.manager.process_count
        → (t.world.shm_process i).read_count ≡ t.world.manager.write_count)
    → Inv n (record t {
      world = publish p (length p) (record t.world { copies = copies });
      sent = t.sent ++ p ∷ [];
    })
unfolding publish
publish-Inv {n} {t} p copies inv pos ready = record {
  count = inv.count;
  word = omega arith;
  shared = refl;
  same = inv.same;
  served = λ i lt.
      let at_index : i < t.world.manager.process_count = omega (arith, lt, inv.count) in
      let read : (t.world.processes i).read_count ≡ t.world.manager.write_count =
        ap (λ (c : ProcessControl). c.read_count) (sym (inv.same i)) ∙ ready i at_index in
      let now : take (length p) (take (length p) p ++ drop (length p) t.world.shm_payload) ≡ p =
        rw (take-all p) (take-append (length p) p _ refl) in
      inr (
        read ∙ sym (previous-next t.world.manager.write_count inv.word),
        (λ e. ne_nil_of_pos p pos (sym now ∙ e)),
        ap₂ (λ (a : List Bytes) (b : Bytes). a ++ b ∷ []) (served_all inv i lt (ready i at_index))
            now,
      );
}

pub note_received_some :
    (p : Bytes) (got : List Bytes) → p ≢ [] → note_received p got ≡ got ++ p ∷ []
note_received_some [] got h = absurd (h refl)
note_received_some (c ∷ p) got h = refl

-- A process that lacks a payload has read all but the current one.
pub served_behind :
    {n : ℕ} {t : Trace} (inv : Inv n t) (i : ℕ)
    → i < n
    → (t.world.processes i).read_count ≡ previous t.world.manager.write_count
    → (current t.world ≢ []) × (t.received i ++ current t.world ∷ [] ≡ t.sent)
served_behind {t = t} inv i lt e = elim (inv.served i lt) [
  | inl all ↦ absurd (previous_ne t.world.manager.write_count inv.word (sym e ∙ all.0))
  | inr behind ↦ (behind.1, behind.2)
]

-- What a process has read is as it was where its counter, the manager's and the payloads are.
pub IsServed-elsewhere :
    (t u : Trace) (j : ℕ)
    → IsServed t j
    → u.world.manager.write_count ≡ t.world.manager.write_count
    → current u.world ≡ current t.world
    → u.sent ≡ t.sent
    → (u.world.processes j).read_count ≡ (t.world.processes j).read_count
    → u.received j ≡ t.received j
    → IsServed u j
IsServed-elsewhere t u j (inl (level, all)) w c s r g = inl (r ∙ level ∙ sym w, g ∙ all ∙ sym s)
IsServed-elsewhere t u j (inr (level, some_left, all)) w c s r g = inr (
  r ∙ level ∙ ap previous (sym w),
  (λ e. some_left (sym c ∙ e)),
  ap₂ (λ (a : List Bytes) (b : Bytes). a ++ b ∷ []) g c ∙ all ∙ sym s,
)

-- A read gives process `i` the payload that it lacked, and leaves the others as they are.
pub take_payload-Inv :
    {n : ℕ} {t : Trace} (i : ℕ)
    → Inv n t
    → i < n
    → (t.world.processes i).read_count ≡ previous t.world.manager.write_count
    → Inv n (record t {
      world = take_payload i t.world.shm_manager t.world;
      received = update t.received i (note_received (current t.world) (t.received i));
    })
unfolding take_payload
take_payload-Inv {n} {t} i inv lt e = record {
  count = inv.count;
  word = inv.word;
  shared = inv.shared;
  same = λ j. ground (arith, inv.same j);
  served = λ j ltj. elim (ℕ_discrete i j) [
    | yes here ↦ subst (IsServed after) here (
        inl (
          ap (λ (p : ProcessControl). p.read_count) (update_self t.world.processes i mine)
              ∙ ap next e
              ∙ next-previous t.world.manager.write_count inv.word,
          update_self t.received i (note_received (current t.world) (t.received i))
              ∙ note_received_some (current t.world) (t.received i) (served_behind inv i lt e).0
              ∙ (served_behind inv i lt e).1,
        ))
    | no other ↦
        IsServed-elsewhere t after j (inv.served j ltj) refl refl refl
          (ap (λ (p : ProcessControl). p.read_count) (update_ne t.world.processes i j mine other))
          (update_ne t.received i j _ other)
  ];
}
  where
    mine : ProcessControl
    mine = record (t.world.processes i) { read_count = next (t.world.processes i).read_count }

    after : Trace
    after = record t {
      world = take_payload i t.world.shm_manager t.world;
      received = update t.received i (note_received (current t.world) (t.received i));
    }

-- A world that differs in the manager's copies, its count of reads and the processes' views only.
pub keeps-Inv :
    {n : ℕ} {t : Trace} (w : World)
    → Inv n t
    → w.manager.process_count ≡ t.world.manager.process_count
    → w.manager.write_count ≡ t.world.manager.write_count
    → current w ≡ current t.world
    → w.shm_manager ≡ w.manager
    → ((i : ℕ) → w.shm_process i ≡ w.processes i)
    → ((i : ℕ) → (w.processes i).read_count ≡ (t.world.processes i).read_count)
    → Inv n (record t { world = w })
keeps-Inv {t = t} w inv count writes payload shared same reads = record {
  count = count ∙ inv.count;
  word = omega (arith, writes, inv.word);
  shared = shared;
  same = same;
  served = λ i lt.
      IsServed-elsewhere t (record t { world = w }) i (inv.served i lt) writes payload refl
        (reads i) refl;
}

pub note_sent_error :
    (c : Code) (p : Bytes) (sent : List Bytes) → c ≢ ok → note_sent c p sent ≡ sent
note_sent_error Code.ok p sent h = absurd (h refl)
note_sent_error _ p sent h = refl

pub write-Inv :
    {n : ℕ} {t : Trace} (p : Bytes)
    → Inv n t
    → {r : World × Code} → Written p t.world r
    → Inv n (record t { world = r.0; sent = note_sent r.1 p t.sent })
write-Inv {n} {t} p inv (refused {r} copies e ne) =
    subst₂ (λ (w : World) (s : List Bytes). Inv n (record t { world = w; sent = s })) (sym e)
      (sym (note_sent_error r.1 p t.sent ne))
      (keeps-Inv (record t.world { copies = copies }) inv refl refl refl inv.shared inv.same
        (λ i. refl))
write-Inv {n} {t} p inv (published {r} copies e pos ready) =
    subst (λ (x : World × Code). Inv n (record t { world = x.0; sent = note_sent x.1 p t.sent }))
      (sym e) (publish-Inv p copies inv pos ready)

pub update_same : (f : ℕ → List Bytes) (i j : ℕ) → update f i (f i) j ≡ f j
update_same f i j = elim (ℕ_discrete i j) [
  | yes e ↦ subst (λ k. update f i (f i) k ≡ f k) e (update_self f i (f i))
  | no ne ↦ update_ne f i j (f i) ne
]
