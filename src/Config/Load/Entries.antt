-- ===== src/Config/Load/Entries.antt =====
-- What the actions make of the entries of a file.
use libdynpm.Base.{
  ℕ, suc, ◌+◌, ◌<◌, ◌≡◌, ◌∙◌, refl, ap, sym, true, [], ◌∷◌, ◌++◌, List, All, Option, none, some,
  map, length, length-append, lt→ltb, le→ltb_false, set, replicate, append_assoc, append-nil, arith,
}
use libdynpm.Text.Chars.{Bytes}
use libdynpm.Text.Outcome.{Outcome, done, fault, ◌>>=◌, unset, aborted, >>=-assoc}
use libdynpm.Config.{ProcessEntry, PluginEntry}
use libdynpm.Config.Load.{
  config_max_str_len, Parser, at_start, Statement, configuration_size, process, wrapping, allocate,
  copy, assign_slot, act, act_all, conf_parse, free_conf, load, unload, processes_of, plugins_of,
}

-- A statement behind the size: an entry whose texts are tokens of the scanner, which are short.
abbrev pub IsEntry : Statement → Type 0
IsEntry (configuration_size _ _) = ⊥
IsEntry (process e) = (length e.name < config_max_str_len) × (length e.host < config_max_str_len)
IsEntry (wrapping e) =
    (length e.plugin_type < config_max_str_len) × (length e.plugin_name < config_max_str_len)

-- So many entries are assigned, and so many are left.
abbrev partial {ℓ} : {A : Type ℓ} → List A → ℕ → List (Option A)
partial found left = map some found ++ replicate left none

module _ {ℓ} {A : Type ℓ} where
  length-partial : (found : List A) (left : ℕ) → length found < length (partial found (suc left))
  length-partial [] left = omega arith
  length-partial (x ∷ found) left = omega (arith, length-partial found left)

  length-partial_whole : (found : List A) → length (partial found 0) ≡ length found
  length-partial_whole [] = refl
  length-partial_whole (x ∷ found) = ap suc (length-partial_whole found)

  set-partial :
      (found : List A) (e : A) (left : ℕ)
      → set (partial found (suc left)) (length found) (some e) ≡ partial (found ++ e ∷ []) left
  set-partial [] e left = refl
  set-partial (x ∷ found) e left = ap (λ slots. some x ∷ slots) (set-partial found e left)

  assign-partial :
      (found : List A) (e : A) (left : ℕ)
      → assign_slot (length found) e (partial found (suc left))
        ≡ done (partial (found ++ e ∷ []) left)
  unfolding assign_slot
  assign-partial found e left =
      rw (lt→ltb _ _ (length-partial found left)) (ap done (set-partial found e left))

copy_lem : (text : Bytes) → length text < config_max_str_len → copy text ≡ done tt
unfolding copy
copy_lem text h = rw (lt→ltb _ _ h)

-- The parser when these are the entries.
abbrev pub filled : List ProcessEntry → List PluginEntry → Parser
filled processes plugins = record {
  configuration =
      some (record { process_slots = map some processes; plugin_slots = map some plugins });
  process_entry = length processes;
  wrapping_entry = length plugins;
}

-- A file that begins with the numbers of its entries
abbrev pub with_size : List Statement → List Statement
with_size statements =
    configuration_size (length (processes_of statements)) (length (plugins_of statements))
    ∷ statements

-- The parser when these entries are assigned, and so many are left.
abbrev loaded : List ProcessEntry → List PluginEntry → ℕ → ℕ → Parser
loaded processes plugins m n = record {
  configuration =
      some (record { process_slots = partial processes m; plugin_slots = partial plugins n });
  process_entry = length processes;
  wrapping_entry = length plugins;
}

act-process :
    (processes : List ProcessEntry) (plugins : List PluginEntry) (e : ProcessEntry) (m n : ℕ)
    → IsEntry (process e)
    → act (process e) (loaded processes plugins (suc m) n)
      ≡ done (loaded (processes ++ e ∷ []) plugins m n)
unfolding act
act-process processes plugins e m n v =
    rw (copy_lem e.name v.0, copy_lem e.host v.1, assign-partial processes e m)
      (ap (λ k. done (record (loaded (processes ++ e ∷ []) plugins m n) { process_entry = k }))
        {x = length processes + 1} (omega (arith, length-append processes (e ∷ []))))

act-wrapping :
    (processes : List ProcessEntry) (plugins : List PluginEntry) (e : PluginEntry) (m n : ℕ)
    → IsEntry (wrapping e)
    → act (wrapping e) (loaded processes plugins m (suc n))
      ≡ done (loaded processes (plugins ++ e ∷ []) m n)
unfolding act
act-wrapping processes plugins e m n v =
    rw (copy_lem e.plugin_type v.0, copy_lem e.plugin_name v.1, assign-partial plugins e n)
      (ap (λ k. done (record (loaded processes (plugins ++ e ∷ []) m n) { wrapping_entry = k }))
        {x = length plugins + 1} (omega (arith, length-append plugins (e ∷ []))))

act_all-entries :
    (statements : List Statement) (processes : List ProcessEntry) (plugins : List PluginEntry)
    → All IsEntry statements
    → act_all statements (
        loaded processes plugins
          (length (processes_of statements))
          (length (plugins_of statements)))
      ≡ done (loaded (processes ++ processes_of statements) (plugins ++ plugins_of statements) 0 0)
unfolding act_all
act_all-entries [] processes plugins vs =
    ap (λ ps. done (loaded ps plugins 0 0)) (sym (append-nil processes))
    ∙ ap (λ qs. done (loaded (processes ++ []) qs 0 0)) (sym (append-nil plugins))
act_all-entries (configuration_size m n ∷ statements) processes plugins vs = absurd vs.0
act_all-entries (process e ∷ statements) processes plugins vs =
    rw
      (act-process processes plugins e (length (processes_of statements))
        (length (plugins_of statements)) vs.0)
      (act_all-entries statements (processes ++ e ∷ []) plugins vs.1
        ∙ ap (λ ps. done (loaded ps (plugins ++ plugins_of statements) 0 0))
            (append_assoc processes (e ∷ []) (processes_of statements)))
act_all-entries (wrapping e ∷ statements) processes plugins vs =
    rw
      (act-wrapping processes plugins e (length (processes_of statements))
        (length (plugins_of statements)) vs.0)
      (act_all-entries statements processes (plugins ++ e ∷ []) vs.1
        ∙ ap (λ qs. done (loaded (processes ++ processes_of statements) qs 0 0))
            (append_assoc plugins (e ∷ []) (plugins_of statements)))

loaded_whole :
    (processes : List ProcessEntry) (plugins : List PluginEntry)
    → loaded processes plugins 0 0 ≡ filled processes plugins
loaded_whole processes plugins =
    ap
      (λ slots. record (loaded processes plugins 0 0) {
        configuration = some (record { process_slots = slots; plugin_slots = partial plugins 0 });
      })
      (append-nil (map some processes))
    ∙ ap
        (λ slots. record (loaded processes plugins 0 0) {
          configuration =
              some (record { process_slots = map some processes; plugin_slots = slots });
        })
        (append-nil (map some plugins))

-- A file that begins with the numbers of its processes and plugins, and goes on with those entries
-- in any order, each text below 16 bytes, is read: the call returns 0, every entry is assigned, and
-- the processes and the plugins stand in the order of the file.
pub conf_parse_lem :
    (statements : List Statement)
    → All IsEntry statements
    → conf_parse (some (with_size statements)) at_start
      ≡ done (filled (processes_of statements) (plugins_of statements), true)
unfolding conf_parse act_all act allocate
conf_parse_lem statements vs =
    rw (act_all-entries statements [] [] vs)
      (ap (λ p. done (p, true)) (loaded_whole (processes_of statements) (plugins_of statements)))

>>=-eq_each {ℓ κ} :
    {A : Type ℓ} {B : Type κ} (o : Outcome A) (f g : A → Outcome B)
    → ((a : A) → f a ≡ g a)
    → (o >>= f) ≡ (o >>= g)
>>=-eq_each (done a) f g h = h a
>>=-eq_each unset f g h = refl
>>=-eq_each aborted f g h = refl
>>=-eq_each fault f g h = refl

act_all-append :
    (statements more : List Statement) (p : Parser)
    → act_all (statements ++ more) p ≡ (do p' ← act_all statements p; act_all more p')
unfolding act_all
act_all-append [] more p = refl
act_all-append (s ∷ statements) more p =
    >>=-eq_each (act s p) (act_all (statements ++ more)) _ (λ p'. act_all-append statements more p')
    ∙ >>=-assoc (act s p) (act_all statements) (act_all more)

one_too_many :
    (processes : List ProcessEntry) (plugins : List PluginEntry) (e : ProcessEntry)
    (rest : List Statement)
    → IsEntry (process e)
    → act_all (process e ∷ rest) (loaded processes plugins 0 0) ≡ fault
unfolding act_all act assign_slot
one_too_many processes plugins e rest v = rw (
  copy_lem e.name v.0,
  copy_lem e.host v.1,
  le→ltb_false (length processes) (length (partial processes 0))
      (omega (arith, length-partial_whole processes)),
)

-- A process behind as many processes as the file has announced is written past the end of the entries.
pub conf_parse_overflow :
    (statements rest : List Statement) (e : ProcessEntry)
    → All IsEntry statements
    → IsEntry (process e)
    → conf_parse (some (with_size statements ++ process e ∷ rest)) at_start ≡ fault
unfolding conf_parse act_all act allocate
conf_parse_overflow statements rest e vs v = rw (
  act_all-append statements (process e ∷ rest)
      (loaded [] [] (length (processes_of statements)) (length (plugins_of statements))),
  act_all-entries statements [] [] vs,
  one_too_many (processes_of statements) (plugins_of statements) e rest v,
)

-- Before and after `main`: where the file of such entries can be opened, it is loaded, and freed at the
-- end; where it cannot, the end reads through a null pointer.
pub unload-load :
    (statements : List Statement)
    → All IsEntry statements
    → ((do p ← load (some (with_size statements)); unload p) ≡ done tt)
      × ((do p ← load none; unload p) ≡ fault)
unfolding load unload free_conf conf_parse act_all act allocate
unload-load statements vs = (rw (act_all-entries statements [] [] vs), refl)
