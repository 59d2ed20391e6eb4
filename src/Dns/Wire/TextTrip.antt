-- ===== src/Dns/Wire/TextTrip.antt =====
-- The text of a domain and its wire encoding.
use dns_relay.Base.{
  ℕ, zero, suc, ◌<◌, ◌≢◌, ◌≡◌, refl, ap, sym, ◌∙◌, true, false, some, List, [], ◌∷◌, ◌++◌, length,
  take, drop, All, leb, ◌==◌, if◌then◌else◌, ◌>>=◌, arith, append_assoc, append-nil, drop-append,
  take-append, length-append,
}
use dns_relay.Dns.Wire.Text.{dot, encode_name, check_loop, copy_loop, decode_name}
use dns_relay.Dns.Wire.Labels.{wire, join, IsLabel}
use dns_relay.Dns.Wire.TextSplit.{
  split, all_short, encoding, prepend, split-IsCons, prepend_nil, extend-prepend,
  encode_name-encoding,
}

-- Decoding.
abbrev pub Plain : List ℕ → Type 0
Plain label = All (λ c. c ≢ dot) label

extend-many :
    (label text : List ℕ) → Plain label → split (label ++ text) ≡ prepend label (split text)
extend-many [] text h = sym (prepend_nil (split text) (split-IsCons text))
extend-many (c ∷ label) text (h, hs) =
    let other : (c == dot) ≡ false = ground (arith, h) in
    rw (other, extend-many label text hs) (extend-prepend c label (split text))

split-join :
    (labels : List (List ℕ)) → All Plain labels → 0 < length labels → split (join labels) ≡ labels
unfolding join
split-join [] h ne = absurd (omega arith)
split-join (label ∷ []) (h, hs) ne =
    ap split (sym (append-nil label)) ∙ extend-many label [] h ∙ rw (append-nil label) refl
split-join (label ∷ next ∷ labels) (h, hs) ne =
    extend-many label (dot ∷ join (next ∷ labels)) h
    ∙ rw (split-join (next ∷ labels) hs (omega arith)) (rw (append-nil label) refl)

check_label :
    (fuel head : ℕ) (p : List ℕ)
    → (head == 0) ≡ false
    → leb 192 head ≡ false
    → check_loop (suc fuel) (head ∷ p) ≡ check_loop fuel (drop head p)
unfolding check_loop
check_label fuel head p nonzero label = rw (nonzero, label, check_loop) refl

copy_label :
    (fuel head : ℕ) (p : List ℕ) (next : ℕ) (rest : List ℕ)
    → (head == 0) ≡ false
    → drop head p ≡ next ∷ rest
    → copy_loop (suc fuel) (head ∷ p) ≡ (
        copy_loop fuel (next ∷ rest) >>= λ text.
        some (take head p ++ (if next == 0 then [] else dot ∷ []) ++ text))
unfolding copy_loop
copy_label fuel head p next rest nonzero moved = rw (nonzero, copy_loop, moved) refl

after_label : (label more : List ℕ) → drop (length label) (label ++ more ++ 0 ∷ []) ≡ more ++ 0 ∷ []
after_label label more =
    ap (drop (length label)) (append_assoc label more (0 ∷ [])) ∙ drop-append label (more ++ 0 ∷ [])

the_label : (label more : List ℕ) → take (length label) (label ++ more ++ 0 ∷ []) ≡ label
the_label label more =
    ap (take (length label)) (append_assoc label more (0 ∷ [])) ∙ take-append label (more ++ 0 ∷ [])

label_nonzero : {label : List ℕ} → IsLabel label → (length label == 0) ≡ false
label_nonzero h = ground (arith, h.nonempty)

check_loop-wire :
    (fuel : ℕ) (labels : List (List ℕ))
    → All IsLabel labels
    → length (wire labels) < fuel
    → check_loop fuel (wire labels ++ 0 ∷ []) ≡ some true
unfolding check_loop wire
check_loop-wire zero labels h lt = absurd (omega arith)
check_loop-wire (suc fuel) [] h lt = refl
check_loop-wire (suc fuel) (label ∷ labels) (h, hs) lt =
    check_label fuel (length label) (label ++ wire labels ++ 0 ∷ []) (label_nonzero h)
      (ground (arith, h.short))
    ∙ rw (after_label label (wire labels))
        (check_loop-wire fuel labels hs (omega (arith, lt, length-append label (wire labels))))

copy_loop-wire :
    (fuel : ℕ) (labels : List (List ℕ))
    → All IsLabel labels
    → length (wire labels) < fuel
    → copy_loop fuel (wire labels ++ 0 ∷ []) ≡ some (join labels)
unfolding copy_loop wire join
copy_loop-wire zero labels h lt = absurd (omega arith)
copy_loop-wire (suc fuel) [] h lt = refl
copy_loop-wire (suc fuel) (label ∷ []) (h, hs) lt =
    copy_label fuel (length label) (label ++ [] ++ 0 ∷ []) 0 [] (label_nonzero h)
      (after_label label [])
    ∙ rw
        (
          copy_loop-wire fuel [] tt (omega (arith, lt, h.nonempty, length-append label [])),
          the_label label [],
        )
        (ap some (append-nil (label ++ []) ∙ append-nil label))
copy_loop-wire (suc fuel) (label ∷ next ∷ labels) (h, hs) lt =
    copy_label fuel (length label) (label ++ wire (next ∷ labels) ++ 0 ∷ []) (length next)
      (next ++ wire labels ++ 0 ∷ []) (label_nonzero h) (after_label label (wire (next ∷ labels)))
    ∙ rw
        (
          copy_loop-wire fuel (next ∷ labels) hs
              (omega (arith, lt, length-append label (wire (next ∷ labels)))),
          the_label label (wire (next ∷ labels)),
          label_nonzero (hs.0),
        )
        (ap some (append_assoc label (dot ∷ []) (join (next ∷ labels))))

-- Parts of at most 63 bytes.
all_short-labels : (labels : List (List ℕ)) → All IsLabel labels → all_short labels ≡ true
all_short-labels [] h = refl
all_short-labels (label ∷ labels) (h, hs) =
    let short : leb (length label) 63 ≡ true = ground (arith, h.short) in
    rw (short, all_short-labels labels hs) refl

join-IsCons :
    (labels : List (List ℕ))
    → All IsLabel labels
    → 0 < length labels
    → (c : ℕ) × (text : List ℕ) × (join labels ≡ c ∷ text)
unfolding join
join-IsCons [] h ne = absurd (omega arith)
join-IsCons ([] ∷ labels) (h, hs) ne = absurd (omega (arith, h.nonempty))
join-IsCons ((c ∷ label) ∷ []) h ne = (c, label, refl)
join-IsCons ((c ∷ label) ∷ next ∷ labels) h ne = (c, label ++ dot ∷ join (next ∷ labels), refl)

-- For at least one label, each of 1 to 63 bytes without dots and zero bytes, encode_name turns the
-- labels joined by dots into the labels with their lengths before them and a final zero, and
-- decode_name turns these back.
pub decode_name-encode_name :
    (labels : List (List ℕ))
    → All IsLabel labels
    → All Plain labels
    → 0 < length labels
    → (encode_name (join labels) ≡ some (wire labels ++ 0 ∷ []))
      × (decode_name (wire labels ++ 0 ∷ []) ≡ some (some (join labels)))
unfolding decode_name
decode_name-encode_name labels h p ne =
    let (c, text, e) = join-IsCons labels h ne in
    let enough : length (wire labels) < suc (length (wire labels ++ 0 ∷ [])) =
      omega (arith, length-append (wire labels) (0 ∷ [])) in
    (
      ap encode_name e
          ∙ encode_name-encoding c text
          ∙ ap (λ d. encoding (split d)) (sym e)
          ∙ ap encoding (split-join labels p ne)
          ∙ rw (all_short-labels labels h) refl,
      rw
          (
            check_loop-wire (suc (length (wire labels ++ 0 ∷ []))) labels h enough,
            copy_loop-wire (suc (length (wire labels ++ 0 ∷ []))) labels h enough,
          )
          refl,
    )
