-- ===== src/Dns/Wire/TextSplit.antt =====
-- `encode_name` against the parts of a text between its dots.
use dns_relay.Base.{
  ℕ, inl, inr, ◌≡◌, refl, ap, ◌∙◌, Bool, true, false, ◌&&◌, Option, none, some, List, [], ◌∷◌, ◌++◌,
  length, leb, ltb, ◌==◌, if◌then◌else◌, arith, append_assoc, append-nil, Bool-cases,
}
use dns_relay.Dns.Wire.Text.{dot, encode_loop, encode_name}
use dns_relay.Dns.Wire.Labels.{wire}

-- The parts of a text between its dots.
abbrev extend : ℕ → List (List ℕ) → List (List ℕ)
extend c [] = (c ∷ []) ∷ []
extend c (part ∷ parts) = (c ∷ part) ∷ parts

abbrev pub split : List ℕ → List (List ℕ)
split [] = [] ∷ []
split (c ∷ text) = if c == dot then [] ∷ split text else extend c (split text)

abbrev pub all_short : List (List ℕ) → Bool
all_short [] = true
all_short (part ∷ parts) = leb (length part) 63 && all_short parts

-- What `encode_name` promises.
abbrev pub encoding : List (List ℕ) → Option (List ℕ)
encoding parts = if all_short parts then some (wire parts ++ 0 ∷ []) else none

abbrev onto : List ℕ → Option (List ℕ) → Option (List ℕ)
onto encoded none = none
onto encoded (some more) = some (encoded ++ more)

onto_nil : (o : Option (List ℕ)) → onto [] o ≡ o
onto_nil none = refl
onto_nil (some more) = refl

abbrev pub prepend : List ℕ → List (List ℕ) → List (List ℕ)
prepend label [] = label ∷ []
prepend label (part ∷ parts) = (label ++ part) ∷ parts

prepend-extend :
    (label : List ℕ) (c : ℕ) (parts : List (List ℕ))
    → prepend (label ++ c ∷ []) parts ≡ prepend label (extend c parts)
prepend-extend label c [] = refl
prepend-extend label c (part ∷ parts) = ap (λ l. l ∷ parts) (append_assoc label (c ∷ []) part)

abbrev IsCons : List (List ℕ) → Type 0
IsCons parts = (part : List ℕ) × (rest : List (List ℕ)) × (parts ≡ part ∷ rest)

extend-IsCons : (c : ℕ) (parts : List (List ℕ)) → IsCons (extend c parts)
extend-IsCons c [] = (c ∷ [], [], refl)
extend-IsCons c (part ∷ parts) = (c ∷ part, parts, refl)

pub split-IsCons : (text : List ℕ) → IsCons (split text)
split-IsCons [] = ([], [], refl)
split-IsCons (c ∷ text) = elim (Bool-cases (c == dot)) [
  | inl e ↦ rw e ([], split text, refl)
  | inr e ↦ rw e (extend-IsCons c (split text))
]

pub prepend_nil : (parts : List (List ℕ)) → IsCons parts → prepend [] parts ≡ parts
prepend_nil parts (part, rest, e) = rw e refl

one_part :
    (encoded label : List ℕ)
    → (if ltb 63 (length label) then none else some (encoded ++ length label ∷ label ++ 0 ∷ []))
      ≡ onto encoded (encoding ((label ++ []) ∷ []))
unfolding wire
one_part encoded label = elim (Bool-cases (ltb 63 (length label))) [
  | inl e ↦
      let long : leb (length label) 63 ≡ false = ground arith in rw (append-nil label, e, long) refl
  | inr e ↦
      let short : leb (length label) 63 ≡ true = ground arith in
      rw (append-nil label, e, short)
        (let flat : label ++ [] ++ 0 ∷ [] ≡ label ++ 0 ∷ [] =
            ap (λ l. l ++ 0 ∷ []) (append-nil label) in
          rw (flat, append_assoc encoded (length label ∷ label) (0 ∷ [])) refl)
]

next_part :
    (encoded label : List ℕ) (parts : List (List ℕ))
    → (if ltb 63 (length label)
        then none
        else onto (encoded ++ length label ∷ label) (encoding parts))
      ≡ onto encoded (encoding ((label ++ []) ∷ parts))
unfolding wire
next_part encoded label parts = elim (Bool-cases (ltb 63 (length label))) [
  | inl e ↦
      let long : leb (length label) 63 ≡ false = ground arith in rw (append-nil label, e, long) refl
  | inr e ↦
      let short : leb (length label) 63 ≡ true = ground arith in
      rw (append-nil label, e, short)
        (elim (Bool-cases (all_short parts)) [
          | inl f ↦ rw f (
              rw
                (
                  append_assoc label (wire parts) (0 ∷ []),
                  append_assoc encoded (length label ∷ label) (wire parts ++ 0 ∷ []),
                )
                refl)
          | inr f ↦ rw f refl
        ])
]

pub extend-prepend :
    (c : ℕ) (label : List ℕ) (parts : List (List ℕ))
    → extend c (prepend label parts) ≡ prepend (c ∷ label) parts
extend-prepend c label [] = refl
extend-prepend c label (part ∷ parts) = refl

encode_loop-dot :
    (encoded label : List ℕ) (c : ℕ) (text : List ℕ)
    → (c == dot) ≡ true
    → encode_loop encoded label (c ∷ text) ≡ (
        if ltb 63 (length label)
        then none
        else encode_loop (encoded ++ length label ∷ label) [] text)
unfolding encode_loop
encode_loop-dot encoded label c text e = rw (e, encode_loop) refl

encode_loop_other :
    (encoded label : List ℕ) (c : ℕ) (text : List ℕ)
    → (c == dot) ≡ false
    → encode_loop encoded label (c ∷ text) ≡ encode_loop encoded (label ++ c ∷ []) text
unfolding encode_loop
encode_loop_other encoded label c text e = rw (e, encode_loop) refl

encode_loop-encoding :
    (encoded label text : List ℕ)
    → encode_loop encoded label text ≡ onto encoded (encoding (prepend label (split text)))
unfolding encode_loop
encode_loop-encoding encoded label [] = one_part encoded label
encode_loop-encoding encoded label (c ∷ text) = elim (Bool-cases (c == dot)) [
  | inl e ↦
      let done : encode_loop (encoded ++ length label ∷ label) [] text
          ≡ onto (encoded ++ length label ∷ label) (encoding (split text)) =
        encode_loop-encoding (encoded ++ length label ∷ label) [] text
        ∙ ap (λ p. onto (encoded ++ length label ∷ label) (encoding p))
            (prepend_nil (split text) (split-IsCons text)) in
      encode_loop-dot encoded label c text e ∙ rw (e, done) (next_part encoded label (split text))
  | inr e ↦
      encode_loop_other encoded label c text e
      ∙ rw e (
          encode_loop-encoding encoded (label ++ c ∷ []) text
          ∙ ap (λ p. onto encoded (encoding p)) (prepend-extend label c (split text)))
]

-- On a text of at least one byte encode_name agrees with its reference: the parts between the dots
-- with their lengths before them and a final zero, and NULL if a part has more than 63 bytes.
pub encode_name-encoding :
    (c : ℕ) (domain : List ℕ) → encode_name (c ∷ domain) ≡ encoding (split (c ∷ domain))
unfolding encode_name
encode_name-encoding c domain =
    encode_loop-encoding [] [] (c ∷ domain)
    ∙ ap (λ p. onto [] (encoding p)) (prepend_nil (split (c ∷ domain)) (split-IsCons (c ∷ domain)))
    ∙ onto_nil (encoding (split (c ∷ domain)))
