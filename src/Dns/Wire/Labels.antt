-- ===== src/Dns/Wire/Labels.antt =====
-- Names as lists of labels: what a name of the wire format means.
use dns_relay.Base.{ℕ, ◌<◌, ◌≤◌, ◌≢◌, ◌≡◌, List, [], ◌∷◌, ◌++◌, length, All, All-append, arith}
use dns_relay.Dns.Wire.Text.{dot}

-- Every label with its length before it.
unfoldable pub wire : List (List ℕ) → List ℕ
wire [] = []
wire (label ∷ labels) = (length label ∷ label) ++ wire labels

-- The labels with dots between them.
unfoldable pub join : List (List ℕ) → List ℕ
join [] = []
join (label ∷ []) = label
join (label ∷ next ∷ labels) = label ++ dot ∷ join (next ∷ labels)

-- A label of 1 to 63 bytes, none of them zero.
pub record IsLabel (label : List ℕ) : Type 0 where
  pub nonempty : 0 < length label
  pub short : length label ≤ 63
  pub nonzero : All (λ c. c ≢ 0) label

abbrev pub IsName : List ℕ → Type 0
IsName name = (labels : List (List ℕ)) × All IsLabel labels × (name ≡ wire labels)

-- A name is a C string.
pub wire-nonzero : (labels : List (List ℕ)) → All IsLabel labels → All (λ c. c ≢ 0) (wire labels)
unfolding wire
wire-nonzero [] h = tt
wire-nonzero (label ∷ labels) (h, hs) = (
  (λ e. omega (arith, h.nonempty, e)),
  All-append (λ c. c ≢ 0) label (wire labels) h.nonzero (wire-nonzero labels hs),
)
