-- ===== src/Dns/Wire/Memory.antt =====
-- src/infra/utils.c: numbers in network byte order, as the bytes in memory; and the cursor of a
-- serializer.
use dns_relay.Base.{
  ℕ, ◌+◌, ◌-◌, ◌*◌, ◌/◌, ◌%◌, ◌^◌, true, false, Option, none, some, List, [], ◌∷◌, ◌++◌, length,
  drop, leb, ltb, ◌==◌, if◌then◌else◌, ◌>>=◌,
}

-- `h2n_2` and `h2n_4`: the bytes that they leave in memory, for a value of 16 or 32 bits.
unfoldable pub h2n_2 : ℕ → List ℕ
h2n_2 host = (host / 256) % 256 ∷ host % 256 ∷ []

unfoldable pub h2n_4 : ℕ → List ℕ
unfolding h2n_2
h2n_4 host = h2n_2 (host / 2 ^ 16) ++ h2n_2 host

-- `memcpy` of 2 or 4 bytes, then `n2h_2` or `n2h_4`: the value and the memory after it.
unfoldable pub n2h_2 : List ℕ → Option (ℕ × List ℕ)
n2h_2 (a ∷ b ∷ rest) = some (a * 256 + b, rest)
n2h_2 net = none

unfoldable pub n2h_4 : List ℕ → Option (ℕ × List ℕ)
unfolding n2h_2
n2h_4 net = do high ← n2h_2 net; low ← n2h_2 high.1; some (high.0 * 2 ^ 16 + low.0, low.1)

-- A memory split at the cursor: the bytes before it and those from it on.
pub record Output : Type 0 where
  pub written : List ℕ
  pub room : List ℕ

-- The bytes are written at the cursor, and the cursor moves past them.
unfoldable pub put : Output → List ℕ → Option Output
put o bytes =
    if leb (length bytes) (length o.room)
    then some (record { written = o.written ++ bytes; room = drop (length bytes) o.room })
    else none

-- `*p` on an array of `char`: the byte as a signed number moves the index of a label head to the
-- next one, and a byte from 128 on moves it backwards.
unfoldable pub next_label : ℕ → ℕ → Option ℕ
next_label i head =
    if ltb head 128
    then some (i + head + 1)
    else if leb (255 - head) i
    then some (i - (255 - head))
    else none

-- The C string that starts here.
unfoldable pub c_str : List ℕ → Option (List ℕ)
c_str [] = none
c_str (b ∷ rest) = elim (b == 0) [ true ↦ some [] | false ↦ do s ← c_str rest; some (b ∷ s) ]

-- The C string in a memory that is a string and its final zero.
unfoldable pub before_zero : List ℕ → List ℕ
before_zero [] = []
before_zero (b ∷ rest) = elim (b == 0) [ true ↦ [] | false ↦ b ∷ before_zero rest ]
