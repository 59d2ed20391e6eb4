-- ===== src/Infra/Config.antt =====
-- src/infra/config_center.c: the configuration, a map of sections to maps of keys to values, which
-- are parsed when they are first read. A section or an entry that the code changes through its
-- pointer is put back under its key. `parser_of` stands for what `hash_map_get` finds in
-- `config_parsers`, whose keys are on stacks that are gone. Cleaners only release memory.
pub mod File
pub mod Lines
pub mod Loads
pub mod Entries
pub mod Reads
mod Tests
use dns_relay.Base.{
  ℕ, Bool, true, false, Option, none, some, List, length, leb, ◌||◌, if◌then◌else◌, ◌>>=◌,
}
use dns_relay.Stl.Key.{str_key}
use dns_relay.Stl.HashMap.{HashMap, hash_map_create, hash_map_get, hash_map_put}

-- `is_cook` is 0 for the string of the file, and 1 for what a parser or `config_set` gave.
pub data ConfigValue (A : Type 0) : Type 0 where
  text : List ℕ → ConfigValue A
  cooked : A → ConfigValue A

abbrev pub ConfigSection : Type 0 → Type 0
ConfigSection A = HashMap (List ℕ) (ConfigValue A)

abbrev pub Config : Type 0 → Type 0
Config A = HashMap (List ℕ) (ConfigSection A)

-- `KEY_SIZE` and `VALUE_STR_SIZE`.
abbrev pub key_size : ℕ
key_size = 64

abbrev pub value_str_size : ℕ
value_str_size = 128

-- A parser of a section: `none` is a failure.
abbrev pub ConfigParser : Type 0 → Type 0
ConfigParser A = List ℕ → List ℕ → Option A

-- The results 0, 1 and -1 of `config_get`.
pub data Lookup (A : Type 0) : Type 0 where
  found : ConfigValue A → Lookup A
  absent unparsed : Lookup A

module _ {A : Type 0} where
  unfoldable pub create_section : ConfigSection A
  create_section = hash_map_create

  unfoldable pub config_init : Config A
  config_init = hash_map_create

  -- The section, a new one if there is none.
  unfoldable pub section_of : Config A → List ℕ → ConfigSection A
  unfolding create_section
  section_of c section = elim (hash_map_get c section) [ none ↦ create_section | some sec ↦ sec ]

  -- `hash_map_put` on the entries of the section.
  unfoldable pub put_entry : Config A → List ℕ → List ℕ → ConfigValue A → Config A
  unfolding section_of
  put_entry c section key entry =
      (hash_map_put c section (hash_map_put (section_of c section) key entry).0).0

  unfoldable pub config_set : Config A → List ℕ → List ℕ → A → Config A
  unfolding put_entry
  config_set c section key a = put_entry c section key (cooked a)

  unfoldable pub config_inject : Config A → List ℕ → List ℕ → List ℕ → Config A
  unfolding put_entry
  config_inject c section key s = put_entry c section key (text s)

  -- The string of an entry that is not cooked goes to the parser of the section, if there is one.
  unfoldable pub cook :
      Option (ConfigParser A) → Config A → List ℕ → List ℕ → ConfigValue A → Config A × Lookup A
  unfolding put_entry
  cook none c section key entry = (c, found entry)
  cook (some parser) c section key (cooked a) = (c, found (cooked a))
  cook (some parser) c section key (text s) = elim (parser key s) [
    | none ↦ (c, unparsed)
    | some a ↦ (put_entry c section key (cooked a), found (cooked a))
  ]

  -- `none` where a name does not fit its buffer of `KEY_SIZE` bytes.
  unfoldable pub config_get :
      (List ℕ → Option (ConfigParser A)) → Config A → List ℕ → List ℕ → Option (Config A × Lookup A)
  unfolding cook
  config_get parser_of c section key =
      if leb key_size (length key) || leb key_size (length section)
      then none
      else some (elim (hash_map_get c section) [
        | none ↦ (c, absent)
        | some sec ↦ elim (hash_map_get sec key) [
          | none ↦ (c, absent)
          | some entry ↦ cook (parser_of section) c section key entry
        ]
      ])
