-- ===== src/Infra/Config/Tests.antt =====
-- A file with one section, and a value that is parsed when it is read.
use dns_relay.Base.{ℕ, ◌≡◌, refl, true, Option, some, List, [], ◌∷◌, map, length, replicate, arith}
use dns_relay.Stl.Key.{str_key}
use dns_relay.Infra.Config.{Config, ConfigParser, config_init, config_inject, config_get}
use dns_relay.Infra.Config.File.{
  skip_spaces, token, copied, read_section, read_pair, read_line, read_lines, config_load_file,
}
use dns_relay.Infra.Config.Entries.{IsValid, Writes, config-Writes, config_init-IsValid}
use dns_relay.Infra.Config.Reads.{Gets, config_get-Gets}
use dns_relay.Infra.Config.Lines.{
  Entry, comment, section, pair, print, any_comment, a_section, a_pair,
}
use dns_relay.Infra.Config.Loads.{config_load_file-print}

abbrev start : Config ℕ
start = config_init

abbrev name : List ℕ
name = 115 ∷ []

abbrev key : List ℕ
key = 107 ∷ []

config-Writes_example : Writes start name key 7 (52 ∷ 50 ∷ [])
config-Writes_example = config-Writes start name key 7 (52 ∷ 50 ∷ []) config_init-IsValid.0

injected-IsValid : IsValid (config_inject start name key (52 ∷ 50 ∷ []))
injected-IsValid =
    (config-Writes start name key 7 (52 ∷ 50 ∷ []) config_init-IsValid.0).injected.valid

-- A parser that measures.
abbrev parser_of : List ℕ → Option (ConfigParser ℕ)
parser_of s = some (λ k v. some (length v))

config_get-Gets_example :
    Gets
      (parser_of name)
      (config_inject start name key (52 ∷ 50 ∷ []))
      name
      key
      (config_get parser_of (config_inject start name key (52 ∷ 50 ∷ [])) name key)
config_get-Gets_example =
    config_get-Gets parser_of (config_inject start name key (52 ∷ 50 ∷ [])) name key
      injected-IsValid (omega arith) (omega arith)

-- #a, [s], k=42
abbrev entries : List Entry
entries = comment (97 ∷ []) ∷ section name ∷ pair key (52 ∷ 50 ∷ []) ∷ []

config_load_file-print_example :
    config_load_file start (replicate 256 0) (some (map print entries))
    ≡ some (config_inject start name key (52 ∷ 50 ∷ []), true)
config_load_file-print_example = config_load_file-print start (replicate 256 0) entries (
  any_comment (97 ∷ []) (refl, tt) (omega arith),
  (
    a_section name ((refl, refl), tt) (refl, tt) (omega arith),
    (
      a_pair 107 [] (52 ∷ 50 ∷ []) ((refl, refl), tt) (refl, tt) refl refl (omega arith)
          ((refl, refl), ((refl, refl), tt)) (omega arith) (omega arith),
      tt,
    ),
  ),
)

-- At an empty line after "k=42" what is left of that in the buffer is read as a pair without a
-- value, so that "k=43" behind it is never read.
blank_line :
    config_load_file start
      (replicate 256 0)
      (some ((107 ∷ 61 ∷ 52 ∷ 50 ∷ 10 ∷ []) ∷ (10 ∷ []) ∷ (107 ∷ 61 ∷ 52 ∷ 51 ∷ 10 ∷ []) ∷ []))
    ≡ some (config_inject start [] key (52 ∷ 50 ∷ []), true)
unfolding config_load_file read_lines read_line read_pair read_section skip_spaces token copied
blank_line = refl
