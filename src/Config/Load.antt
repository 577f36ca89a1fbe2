-- ===== src/Config/Load.antt =====
-- How the configuration is read: the allocation and `dynpm_conf_parse` of src/config/config.c, the
-- actions of src/config/bison.y, and src/config/load.c.
use libdynpm.Base.{
  ℕ, zero, suc, ◌+◌, ◌≤◌, ◌<◌, ◌≡◌, ◌∙◌, refl, ap, sym, true, false, Bool, ◌&&◌, [], ◌∷◌, ◌++◌,
  List, All, Option, none, some, map, length, length-append, ltb, leb, lt→ltb, le→ltb_false, set,
  replicate, if◌then◌else◌, append_assoc, append-nil, arith,
}
use libdynpm.Text.Chars.{Bytes}
use libdynpm.Text.Outcome.{Outcome, done, fault, ◌>>=◌, ◌>>◌, unset, aborted, >>=-assoc}
use libdynpm.Config.{ProcessEntry, PluginEntry}
pub mod Entries

-- `CONFIG_MAX_STR_LEN`
abbrev pub config_max_str_len : ℕ
config_max_str_len = 16

-- `dynpm_configuration` behind its pointer: the entries that are allocated; `none` is one that has not
-- been assigned.
pub record Slots : Type 0 where
  pub process_slots : List (Option ProcessEntry)
  pub plugin_slots : List (Option PluginEntry)

-- `dynpm_configuration`, and the two static counters of the actions
pub record Parser : Type 0 where
  pub configuration : Option Slots
  pub process_entry : ℕ
  pub wrapping_entry : ℕ

-- When the program starts
abbrev pub at_start : Parser
at_start = record { configuration = none; process_entry = 0; wrapping_entry = 0 }

-- What the grammar finds in a file
pub data Statement : Type 0 where
  configuration_size : ℕ → ℕ → Statement
  process : ProcessEntry → Statement
  wrapping : PluginEntry → Statement

-- `allocate_dynpm_conf`
unfoldable pub allocate : ℕ → ℕ → Slots
allocate processes plugins = record {
  process_slots = replicate processes none;
  plugin_slots = replicate plugins none;
}

-- `strcpy` of a text to a block of `CONFIG_MAX_STR_LEN` bytes
unfoldable pub copy : Bytes → Outcome (Unit {0})
copy text = if ltb (length text) config_max_str_len then done tt else fault

-- An assignment to the entry at an index, which is not checked.
unfoldable pub assign_slot {ℓ} : {A : Type ℓ} → ℕ → A → List (Option A) → Outcome (List (Option A))
assign_slot index e slots =
    if ltb index (length slots) then done (set slots index (some e)) else fault

-- The action of a statement
unfoldable pub act : Statement → Parser → Outcome Parser
unfolding allocate copy assign_slot
act (configuration_size processes plugins) p =
    done (record p { configuration = some (allocate processes plugins) })
act (process e) p = elim p.configuration [
  | none ↦ fault
  | some c ↦ (do
    copy e.name
    copy e.host
    slots ← assign_slot p.process_entry e c.process_slots
    done (record p {
      configuration = some (record c { process_slots = slots });
      process_entry = p.process_entry + 1;
    }))
]
act (wrapping e) p = elim p.configuration [
  | none ↦ fault
  | some c ↦ (do
    copy e.plugin_type
    copy e.plugin_name
    slots ← assign_slot p.wrapping_entry e c.plugin_slots
    done (record p {
      configuration = some (record c { plugin_slots = slots });
      wrapping_entry = p.wrapping_entry + 1;
    }))
]

-- `yyparse` over the statements of a file
unfoldable pub act_all : List Statement → Parser → Outcome Parser
unfolding act
act_all [] p = done p
act_all (s ∷ statements) p = do p' ← act s p; act_all statements p'

-- `dynpm_conf_parse`, and whether it returns 0; `none` is a file that cannot be opened.
unfoldable pub conf_parse : Option (List Statement) → Parser → Outcome (Parser × Bool)
unfolding act_all
conf_parse none p = done (p, false)
conf_parse (some statements) p = do p' ← act_all statements p; done (p', true)

-- `free_dynpm_conf`
unfoldable pub free_conf : Parser → Outcome (Unit {0})
free_conf p = elim p.configuration [ none ↦ fault | some c ↦ done tt ]

-- `load` and `unload`, which run before and after `main`, with the file
unfoldable pub load : Option (List Statement) → Outcome Parser
unfolding conf_parse
load file = do (p, parsed) ← conf_parse file at_start; done p

unfoldable pub unload : Parser → Outcome (Unit {0})
unfolding free_conf
unload p = free_conf p

abbrev pub processes_of : List Statement → List ProcessEntry
processes_of [] = []
processes_of (process e ∷ statements) = e ∷ processes_of statements
processes_of (_ ∷ statements) = processes_of statements

abbrev pub plugins_of : List Statement → List PluginEntry
plugins_of [] = []
plugins_of (wrapping e ∷ statements) = e ∷ plugins_of statements
plugins_of (_ ∷ statements) = plugins_of statements
