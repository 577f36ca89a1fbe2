-- ===== src/Config.antt =====
-- src/config/config.c: the entries of the configuration, and the searches in them.
use libdynpm.Base.{
  ℕ, zero, suc, ◌+◌, ◌<◌, ◌≡◌, ◌≢◌, ◌∙◌, refl, false, [], ◌∷◌, List, Option, none, some, ◌⊎◌, inl,
  inr, get_elem?, if◌then◌else◌, arith, Bool-cases, ap,
}
use libdynpm.Text.Chars.{Bytes, same_text, same_text_sound, same_text_refl}
pub mod Load

-- `dynpm_process_conf_entry_t`
pub record ProcessEntry : Type 0 where
  pub name : Bytes
  pub port : ℕ
  pub threads : ℕ
  pub host : Bytes

-- `dynpm_plugin_conf_entry_t`
pub record PluginEntry : Type 0 where
  pub plugin_type : Bytes
  pub plugin_name : Bytes

-- `dynpm_conf_t`; the counts are the lengths of the lists.
pub record Configuration : Type 0 where
  pub process_entries : List ProcessEntry
  pub plugin_entries : List PluginEntry

-- The loop of both searches over the entries, from `entry` on, where `key` is what `strcmp` compares.
unfoldable pub find_entry {ℓ} : {A : Type ℓ} → (A → Bytes) → Bytes → List A → ℕ → Option ℕ
find_entry key text [] entry = none
find_entry key text (e ∷ entries) entry =
    let rest = find_entry key text entries (entry + 1) in
    if same_text (key e) text then some entry else rest

-- `dynpm_conf_get_process_config`: the index of the entry whose address it gives, or `none` for -1.
unfoldable pub get_process_config : Bytes → Configuration → Option ℕ
unfolding find_entry
get_process_config name c = find_entry (λ e. e.name) name c.process_entries 0

-- `dynpm_conf_get_plugin_config`: the index of the entry whose address it gives, or `none` for -1.
unfoldable pub get_plugin_config : Bytes → Configuration → Option ℕ
unfolding find_entry
get_plugin_config type c = find_entry (λ e. e.plugin_type) type c.plugin_entries 0

-- No entry has the key.
abbrev pub IsAbsent {ℓ} : {A : Type ℓ} → (A → Bytes) → Bytes → List A → Type ℓ
IsAbsent {A = A} key text entries = (i : ℕ) (e : A) → get_elem? entries i ≡ some e → key e ≢ text

-- The entry at index `i` has the key, and no entry before it does.
abbrev pub IsFirst {ℓ} : {A : Type ℓ} → (A → Bytes) → Bytes → List A → ℕ → Type ℓ
IsFirst {A = A} key text entries i =
    ((e : A) × (get_elem? entries i ≡ some e) × (key e ≡ text))
    × ((j : ℕ) (e : A) → j < i → get_elem? entries j ≡ some e → key e ≢ text)

-- What a search that began at `base` returns.
abbrev Search {ℓ} : {A : Type ℓ} → (A → Bytes) → Bytes → List A → ℕ → Option ℕ → Type ℓ
Search key text entries base r =
    ((r ≡ none) × IsAbsent key text entries)
    ⊎ ((i : ℕ) × (r ≡ some (base + i)) × IsFirst key text entries i)

differ : (s t : Bytes) → same_text s t ≡ false → s ≢ t
differ s t h e = let clash : same_text t t ≡ false = rw e at h in cc (same_text_refl t)

IsAbsent-cons {ℓ} :
    {A : Type ℓ} (key : A → Bytes) (text : Bytes) (a : A) (entries : List A)
    → key a ≢ text
    → IsAbsent key text entries
    → IsAbsent key text (a ∷ entries)
IsAbsent-cons key text a entries head tail zero e h same =
    let is_head : a ≡ e = cc in head (ap key is_head ∙ same)
IsAbsent-cons key text a entries head tail (suc i) e h same = tail i e h same

IsFirst-cons {ℓ} :
    {A : Type ℓ} (key : A → Bytes) (text : Bytes) (a : A) (entries : List A) (i : ℕ)
    → key a ≢ text
    → IsFirst key text entries i
    → IsFirst key text (a ∷ entries) (suc i)
IsFirst-cons {A = A} key text a entries i head (here, before) = (here, earlier)
  where
    earlier : (j : ℕ) (e : A) → j < suc i → get_elem? (a ∷ entries) j ≡ some e → key e ≢ text
    earlier zero e lt h same = let is_head : a ≡ e = cc in head (ap key is_head ∙ same)
    earlier (suc j) e lt h same = before j e (omega arith) h same

find_entry_lem {ℓ} :
    {A : Type ℓ} (key : A → Bytes) (text : Bytes) (entries : List A) (base : ℕ)
    → Search key text entries base (find_entry key text entries base)
unfolding find_entry
find_entry_lem key text [] base = inl (refl, λ i e h. cc h)
find_entry_lem key text (a ∷ entries) base = elim (Bool-cases (same_text (key a) text)) [
  | inl found ↦ inr (
    0,
    rw found (ap some (omega arith)),
    ((a, refl, same_text_sound (key a) text found), λ j e lt. absurd (omega arith)),
  )
  | inr other ↦ elim (find_entry_lem key text entries (base + 1)) [
    | inl (nothing, absent) ↦
        inl
          (rw (other, nothing), IsAbsent-cons key text a entries (differ (key a) text other) absent)
    | inr (i, found, first) ↦ inr (
      suc i,
      rw (other, found) (ap some (omega arith)),
      IsFirst-cons key text a entries i (differ (key a) text other) first,
    )
  ]
]

-- A search through all entries
search_all {ℓ} :
    {A : Type ℓ} (key : A → Bytes) (text : Bytes) (entries : List A)
    → ((find_entry key text entries 0 ≡ none) × IsAbsent key text entries)
      ⊎ ((i : ℕ) × (find_entry key text entries 0 ≡ some i) × IsFirst key text entries i)
search_all key text entries = elim (find_entry_lem key text entries 0) [
  | inl absent ↦ inl absent
  | inr (i, found, first) ↦ inr (i, found ∙ ap some (omega arith), first)
]

-- The search for a process returns the index of the first entry of that name, or -1 if no entry has it.
pub get_process_config_lem :
    (name : Bytes) (c : Configuration)
    → ((get_process_config name c ≡ none) × IsAbsent (λ e. e.name) name c.process_entries)
      ⊎ ((i : ℕ) × (get_process_config name c ≡ some i)
          × IsFirst (λ e. e.name) name c.process_entries i)
unfolding get_process_config
get_process_config_lem name c = search_all (λ e. e.name) name c.process_entries

-- The search for a plugin returns the index of the first entry of that type, or -1 if no entry has it.
pub get_plugin_config_lem :
    (type : Bytes) (c : Configuration)
    → ((get_plugin_config type c ≡ none) × IsAbsent (λ e. e.plugin_type) type c.plugin_entries)
      ⊎ ((i : ℕ) × (get_plugin_config type c ≡ some i)
          × IsFirst (λ e. e.plugin_type) type c.plugin_entries i)
unfolding get_plugin_config
get_plugin_config_lem type c = search_all (λ e. e.plugin_type) type c.plugin_entries
