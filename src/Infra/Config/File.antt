-- ===== src/Infra/Config/File.antt =====
-- `config_load_file`: the state machine over the lines of the file. `fgets` gives the lines, and the
-- buffer keeps what a shorter line does not overwrite; `none` where the code leaves its buffers.
use dns_relay.Base.{
  ℕ, ◌+◌, Bool, true, false, ◌&&◌, ◌||◌, Option, none, some, List, [], ◌∷◌, ◌++◌, length, drop, leb,
  ltb, ◌==◌, if◌then◌else◌, ◌>>=◌,
}
use dns_relay.Dns.Wire.Memory.{before_zero}
use dns_relay.Infra.Config.{Config, key_size, value_str_size, config_inject}

-- The bytes of ' ', '#', '=', '[' and ']'; `isspace` in the C locale.
abbrev pub is_space : ℕ → Bool
is_space c = c == 32 || (leb 9 c && leb c 13)

abbrev pub hash_sign : ℕ
hash_sign = 35

abbrev pub equals_sign : ℕ
equals_sign = 61

abbrev pub open_bracket : ℕ
open_bracket = 91

abbrev pub close_bracket : ℕ
close_bracket = 93

-- The local variables of `config_load_file`; the last three are C strings.
pub record Load (A : Type 0) : Type 0 where
  pub config : Config A
  pub line : List ℕ
  pub cur_section_str : List ℕ
  pub cur_key_str : List ℕ
  pub cur_value_str : List ℕ

unfoldable pub skip_spaces : List ℕ → Option (List ℕ)
skip_spaces [] = none
skip_spaces (c ∷ nc) = elim (is_space c) [ true ↦ skip_spaces nc | false ↦ some (c ∷ nc) ]

-- The loops that count `token_len`: the token and what stands after it.
unfoldable pub token : (ℕ → Bool) → List ℕ → Option (List ℕ × List ℕ)
token stop [] = none
token stop (c ∷ nc) = elim (stop c) [
  | true ↦ some ([], c ∷ nc)
  | false ↦ do t ← token stop nc; some (c ∷ t.0, t.1)
]

abbrev starts_with_zero : List ℕ → Bool
starts_with_zero [] = false
starts_with_zero (c ∷ nc) = c == 0

-- `memcpy` of a token into a buffer, with a zero byte behind it.
unfoldable pub copied : ℕ → List ℕ → Option (List ℕ)
unfolding before_zero
copied size t = if ltb (length t) size then some (before_zero t) else none

abbrev pub ends_section : ℕ → Bool
ends_section c = c == close_bracket || is_space c

abbrev pub ends_key : ℕ → Bool
ends_key c = c == equals_sign || is_space c

abbrev pub ends_value : ℕ → Bool
ends_value c = is_space c || c == 0

module _ {A : Type 0} where
  -- After the bracket. The flag is false where the code breaks out of the loop.
  unfoldable pub read_section : Load A → List ℕ → Option (Load A × Bool)
  unfolding skip_spaces token copied
  read_section l nc = do
    nc1 ← skip_spaces nc
    t ← token ends_section nc1
    elim (starts_with_zero t.1) [
      | true ↦ some (l, false)
      | false ↦ do s ← copied key_size t.0; some (record l { cur_section_str = s }, true)
    ]

  unfoldable pub read_pair : Load A → List ℕ → Option (Load A × Bool)
  unfolding token copied config_inject
  read_pair l nc = do
    k ← token ends_key nc
    elim (starts_with_zero k.1) [
      | true ↦ some (l, false)
      | false ↦ do
        key ← copied key_size k.0
        v ← token ends_value (drop 1 k.1)
        elim (length v.0 == 0) [
          | true ↦ some (record l { cur_key_str = key }, false)
          | false ↦ do
            value ← copied value_str_size v.0
            some (
              record l {
                cur_key_str = key;
                cur_value_str = value;
                config = config_inject l.config l.cur_section_str key value;
              },
              true,
            )
        ]
    ]

  abbrev pub read_token : Load A → List ℕ → Option (Load A × Bool)
  read_token l [] = none
  read_token l (c ∷ nc) =
      if c == hash_sign
      then some (l, true)
      else if c == open_bracket
      then read_section l nc
      else read_pair l (c ∷ nc)

  unfoldable pub read_line : Load A → Option (Load A × Bool)
  unfolding skip_spaces read_section read_pair
  read_line l = do nc ← skip_spaces l.line; read_token l nc

  -- A line from the file over the start of the buffer.
  abbrev pub fgets : Load A → List ℕ → Load A
  fgets l s = record l { line = s ++ 0 ∷ drop (length s + 1) l.line }

  unfoldable pub read_lines : Load A → List (List ℕ) → Option (Load A)
  unfolding read_line
  read_lines l [] = some l
  read_lines l (s ∷ lines) = do
    r ← read_line (fgets l s)
    elim (r.1) [ true ↦ read_lines r.0 lines | false ↦ some r.0 ]

  -- `none` in the place of the file is the result NULL of `fopen`, and then the result is -1.
  unfoldable pub config_load_file :
      Config A → List ℕ → Option (List (List ℕ)) → Option (Config A × Bool)
  unfolding read_lines
  config_load_file c line none = some (c, false)
  config_load_file c line (some lines) = do
    l ←
        read_lines
          (record {
            config = c;
            line = line;
            cur_section_str = [];
            cur_key_str = [];
            cur_value_str = [];
          })
          lines
    some (l.config, true)
