-- ===== src/Dns/Wire/Text.antt =====
-- `encode_name` and `decode_name`: a domain as text and as a name of the wire format.
use dns_relay.Base.{
  ℕ, zero, suc, Bool, true, false, Option, none, some, List, [], ◌∷◌, ◌++◌, length, take, drop, leb,
  ltb, ◌==◌, if◌then◌else◌, ◌>>=◌,
}

-- The byte of '.'.
abbrev pub dot : ℕ
dot = 46

-- The loop of `encode_name`: `label` is what lies between `label_start` and `read`, `encoded` what
-- was written. `none` is the result NULL.
unfoldable pub encode_loop : List ℕ → List ℕ → List ℕ → Option (List ℕ)
encode_loop encoded label [] =
    if ltb 63 (length label) then none else some (encoded ++ length label ∷ label ++ 0 ∷ [])
encode_loop encoded label (c ∷ read) = elim (c == dot) [
  | true ↦
      if ltb 63 (length label) then none else encode_loop (encoded ++ length label ∷ label) [] read
  | false ↦ encode_loop encoded (label ++ c ∷ []) read
]

unfoldable pub encode_name : List ℕ → Option (List ℕ)
unfolding encode_loop
encode_name [] = none
encode_name (c ∷ domain) = encode_loop [] [] (c ∷ domain)

-- The first loop of `decode_name`: `some false` is the result NULL at the head of a pointer. The
-- fuel bounds the rounds.
unfoldable pub check_loop : ℕ → List ℕ → Option Bool
check_loop zero encoded = none
check_loop (suc fuel) [] = none
check_loop (suc fuel) (head ∷ p) = elim (head == 0) [
  | true ↦ some true
  | false ↦ elim (leb 192 head) [ true ↦ some false | false ↦ check_loop fuel (drop head p) ]
]

-- The second loop: it copies the labels, with a dot before each label but the first.
unfoldable pub copy_loop : ℕ → List ℕ → Option (List ℕ)
copy_loop zero encoded = none
copy_loop (suc fuel) [] = none
copy_loop (suc fuel) (head ∷ p) = elim (head == 0) [
  | true ↦ some []
  | false ↦ elim (drop head p) [
    | [] ↦ none
    | next ∷ rest ↦ do
      text ← copy_loop fuel (next ∷ rest)
      some (take head p ++ (if next == 0 then [] else dot ∷ []) ++ text)
  ]
]

-- `some none` is the result NULL.
unfoldable pub decode_name : List ℕ → Option (Option (List ℕ))
unfolding check_loop copy_loop
decode_name encoded = do
  valid ← check_loop (suc (length encoded)) encoded
  elim valid [
    | true ↦ do decoded ← copy_loop (suc (length encoded)) encoded; some (some decoded)
    | false ↦ some none
  ]
