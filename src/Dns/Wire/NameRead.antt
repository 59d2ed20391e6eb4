-- ===== src/Dns/Wire/NameRead.antt =====
-- What `name_deserialize` reads, against a description of names with compression pointers.
use Prim.Native.Nat.{bit_xor}
use dns_relay.Base.{
  ℕ, zero, suc, ◌+◌, ◌-◌, ◌*◌, ◌<◌, ◌≤◌, ◌≡◌, ◌≢◌, refl, ap, sym, ◌∙◌, true, false, ◌||◌, Option,
  some, List, [], ◌∷◌, ◌++◌, length, take, drop, get_elem?, All, All-append, ◌==◌, leb, ltb, ◌>>=◌,
  arith, append_assoc, take-append, length-append,
}
use dns_relay.Dns.Wire.Memory.{n2h_2, c_str, before_zero, next_label}
use dns_relay.Dns.Wire.Name.{walk, name_plain, join_suffix, name_end, name_at, name_deserialize}
use dns_relay.Dns.Wire.Labels.{wire, IsLabel, wire-nonzero}
use dns_relay.Dns.Wire.Place.{
  At, At-get_elem?, At-drop, At-bound, At-skip, c_str-zero, before_zero_all, pointer_xor,
}

-- A field of some length at a place of the packet encodes a name: labels with a final zero, or
-- labels and a pointer to the encoding of the rest of the name at a place before the field.
pub data Encodes (buf : List ℕ) : ℕ → List (List ℕ) → ℕ → Type 0 where
  ended :
      (cur : ℕ) (labels : List (List ℕ))
      → All IsLabel labels
      → At buf cur (wire labels ++ 0 ∷ [])
      → Encodes buf cur labels (length (wire labels) + 1)
  pointer :
      (cur : ℕ) (labels rest : List (List ℕ)) (high low len : ℕ)
      → All IsLabel labels
      → All IsLabel rest
      → high < 64
      → low < 256
      → high * 256 + low < cur
      → At buf cur (wire labels ++ (192 + high) ∷ low ∷ [])
      → Encodes buf (high * 256 + low) rest len
      → Encodes buf cur (labels ++ rest) (length (wire labels) + 2)

walk_stop :
    (fuel : ℕ) (buf : List ℕ) (i head : ℕ)
    → get_elem? buf i ≡ some head
    → ((head == 0) || leb 192 head) ≡ true
    → walk (suc fuel) buf i ≡ some i
unfolding walk
walk_stop fuel buf i head e stop = rw (e, ◌>>=◌, stop, walk) refl

pub next_label_short : (i head : ℕ) → head ≤ 63 → next_label i head ≡ some (i + head + 1)
unfolding next_label
next_label_short i head h = let short : ltb head 128 ≡ true = ground arith in rw short refl

walk_label :
    (fuel : ℕ) (buf : List ℕ) (i head : ℕ)
    → get_elem? buf i ≡ some head
    → 0 < head
    → head ≤ 63
    → walk (suc fuel) buf i ≡ walk fuel buf (i + head + 1)
unfolding walk
walk_label fuel buf i head e pos short =
    let go : ((head == 0) || leb 192 head) ≡ false = ground arith in
    rw (e, ◌>>=◌, go, next_label_short i head short, walk) refl

pub walk-wire :
    (fuel : ℕ) (buf : List ℕ) (cur : ℕ) (labels : List (List ℕ)) (stop : ℕ) (s : List ℕ)
    → All IsLabel labels
    → length (wire labels) < fuel
    → ((stop == 0) || leb 192 stop) ≡ true
    → At buf cur (wire labels ++ stop ∷ s)
    → walk fuel buf cur ≡ some (cur + length (wire labels))
unfolding wire
walk-wire zero buf cur labels stop s h lt e a = absurd (omega arith)
walk-wire (suc fuel) buf cur [] stop s h lt e a =
    walk_stop fuel buf cur stop (At-get_elem? a) e ∙ ap some (omega arith)
walk-wire (suc fuel) buf cur (label ∷ labels) stop s (h, hs) lt e a =
    let a' : At buf cur ((length label ∷ label) ++ (wire labels ++ stop ∷ s)) =
      rw (← append_assoc (length label ∷ label) (wire labels) (stop ∷ s)) a in
    let next : At buf (cur + length label + 1) (wire labels ++ stop ∷ s) =
      let k : cur + length label + 1 ≡ cur + length (length label ∷ label) = omega arith in
      rw k (At-skip (length label ∷ label) (wire labels ++ stop ∷ s) a') in
    walk_label fuel buf cur (length label) (At-get_elem? a') h.nonempty h.short
    ∙ walk-wire fuel buf (cur + length label + 1) labels stop s hs
        (omega (arith, lt, length-append label (wire labels))) e next
    ∙ ap some (omega (arith, length-append label (wire labels)))

name_at_plain :
    (fuel : ℕ) (buf : List ℕ) (cur i : ℕ)
    → walk (suc (length buf)) buf cur ≡ some i
    → get_elem? buf i ≡ some 0
    → name_at (suc fuel) buf cur ≡ some (name_plain buf cur)
unfolding name_at name_end
name_at_plain fuel buf cur i e g = rw (e, g, name_at) refl

-- The name before a pointer, from what the target gives.
abbrev pub continued : List ℕ → ℕ → ℕ → Option (Option (List ℕ × ℕ)) → Option (Option (List ℕ × ℕ))
continued buf cur i found = found >>= λ suffix. some (suffix >>= λ s. join_suffix buf cur i s.0)

pub name_at_pointer :
    (fuel : ℕ) (buf : List ℕ) (cur i head offset : ℕ) (r : List ℕ)
    → walk (suc (length buf)) buf cur ≡ some i
    → get_elem? buf i ≡ some head
    → (head == 0) ≡ false
    → n2h_2 (drop i buf) ≡ some (offset, r)
    → name_at (suc fuel) buf cur ≡ continued buf cur i (name_at fuel buf (bit_xor offset 0xC000))
unfolding name_at name_end
name_at_pointer fuel buf cur i head offset r e g nonzero o =
    rw (e, g, ◌>>=◌, nonzero, o, name_at) refl

-- A walk over the labels of a field.
pub walk_field :
    {buf : List ℕ} {cur : ℕ} (labels : List (List ℕ)) (stop : ℕ) (s : List ℕ)
    → All IsLabel labels
    → ((stop == 0) || leb 192 stop) ≡ true
    → At buf cur (wire labels ++ stop ∷ s)
    → walk (suc (length buf)) buf cur ≡ some (cur + length (wire labels))
walk_field {buf = buf} {cur = cur} labels stop s h e a =
    walk-wire (suc (length buf)) buf cur labels stop s h
      (omega (arith, At-bound a, length-append (wire labels) (stop ∷ s))) e a

name_plain-wire :
    {buf : List ℕ} {cur : ℕ} (labels : List (List ℕ))
    → All IsLabel labels
    → At buf cur (wire labels ++ 0 ∷ [])
    → name_plain buf cur ≡ some (wire labels, length (wire labels) + 1)
unfolding name_plain
name_plain-wire {buf = buf} {cur = cur} labels h a =
    let found : c_str (drop cur buf) ≡ some (wire labels) =
      ap c_str (At-drop a ∙ append_assoc (wire labels) (0 ∷ []) a.after)
      ∙ c_str-zero (wire labels) a.after (wire-nonzero labels h) in
    rw found refl

pub wire-append : (xs ys : List (List ℕ)) → wire (xs ++ ys) ≡ wire xs ++ wire ys
unfolding wire
wire-append [] ys = refl
wire-append (x ∷ xs) ys =
    ap (λ s. (length x ∷ x) ++ s) (wire-append xs ys)
    ∙ sym (append_assoc (length x ∷ x) (wire xs) (wire ys))

join_suffix-wire :
    {buf : List ℕ} {cur : ℕ} (labels rest : List (List ℕ)) (s : List ℕ)
    → All IsLabel labels
    → All IsLabel rest
    → At buf cur (wire labels ++ s)
    → join_suffix buf cur (cur + length (wire labels)) (wire rest)
      ≡ some (wire (labels ++ rest), length (wire labels) + 2)
unfolding join_suffix
join_suffix-wire {buf = buf} {cur = cur} labels rest s h k a =
    let forward : ltb (cur + length (wire labels)) cur ≡ false = ground arith in
    let i : cur + length (wire labels) - cur ≡ length (wire labels) = omega arith in
    let copied : take (length (wire labels)) (drop cur buf) ≡ wire labels =
      ap (take (length (wire labels))) (At-drop a ∙ append_assoc (wire labels) s a.after)
      ∙ take-append (wire labels) (s ++ a.after) in
    let name : before_zero (wire labels ++ wire rest) ≡ wire (labels ++ rest) =
      before_zero_all (wire labels ++ wire rest) (
        All-append (λ c. c ≢ 0) (wire labels) (wire rest) (wire-nonzero labels h)
          (wire-nonzero rest k))
      ∙ sym (wire-append labels rest) in
    rw (forward, i, copied, name) refl

pub n2h_2_pair : (a b : ℕ) (r : List ℕ) → n2h_2 (a ∷ b ∷ r) ≡ some (a * 256 + b, r)
unfolding n2h_2
n2h_2_pair a b r = refl

Encodes-bound :
    {buf : List ℕ} {cur : ℕ} {labels : List (List ℕ)} {len : ℕ}
    → Encodes buf cur labels len
    → cur < suc (length buf)
Encodes-bound (ended cur labels h a) = omega (arith, At-bound a)
Encodes-bound (pointer cur first rest high low len' h k hi lo back a enc) =
    omega (arith, At-bound a)

-- Labels and a pointer: the name at its target is the suffix.
pub name_at_back :
    (fuel : ℕ) (buf : List ℕ) (cur target high low : ℕ) (first : List (List ℕ))
    → All IsLabel first
    → high < 64
    → low < 256
    → high * 256 + low ≡ target
    → At buf cur (wire first ++ (192 + high) ∷ low ∷ [])
    → name_at (suc fuel) buf cur
      ≡ continued buf cur (cur + length (wire first)) (name_at fuel buf target)
name_at_back fuel buf cur target high low first h hi lo t a =
    let i = cur + length (wire first) in
    let there = At-skip (wire first) ((192 + high) ∷ low ∷ []) a in
    let value : (192 + high) * 256 + low ≡ 0xC000 + target = omega arith in
    let flag : bit_xor ((192 + high) * 256 + low) 0xC000 ≡ target =
      ap (λ n. bit_xor n 0xC000) value ∙ pointer_xor target (omega arith) in
    name_at_pointer fuel buf cur i (192 + high) ((192 + high) * 256 + low) there.after
      (walk_field first (192 + high) (low ∷ []) h (ground arith) a) (At-get_elem? there)
      (ground arith) (ap n2h_2 (At-drop there) ∙ n2h_2_pair (192 + high) low there.after)
    ∙ ap (λ n. continued buf cur i (name_at fuel buf n)) flag

name_at-Encodes :
    (fuel : ℕ) (buf : List ℕ) (cur : ℕ) (labels : List (List ℕ)) (len : ℕ)
    → cur < fuel
    → Encodes buf cur labels len
    → name_at fuel buf cur ≡ some (some (wire labels, len))
name_at-Encodes zero buf cur labels len lt h = absurd (omega arith)
name_at-Encodes (suc fuel) buf _ _ _ lt (ended cur labels h a) =
    name_at_plain fuel buf cur (cur + length (wire labels)) (walk_field labels 0 [] h refl a)
      (At-get_elem? (At-skip (wire labels) (0 ∷ []) a))
    ∙ ap some (name_plain-wire labels h a)
name_at-Encodes (suc fuel) buf _ _ _ lt
      (pointer cur first rest high low len' h k hi lo back a enc) =
    let i = cur + length (wire first) in
    name_at_back fuel buf cur (high * 256 + low) high low first h hi lo refl a
    ∙ ap (continued buf cur i)
        (name_at-Encodes fuel buf (high * 256 + low) rest len' (omega arith) enc)
    ∙ ap some (join_suffix-wire first rest ((192 + high) ∷ low ∷ []) h k a)

-- Where a field of a packet encodes a name, as labels of 1 to 63 bytes with a final zero, or as
-- such labels and a pointer to the encoding of the rest at a place before the field,
-- name_deserialize returns that name and the length of the field.
pub name_deserialize-Encodes :
    (buf : List ℕ) (cur : ℕ) (labels : List (List ℕ)) (len : ℕ)
    → Encodes buf cur labels len
    → name_deserialize buf cur ≡ some (wire labels, len)
unfolding name_deserialize
name_deserialize-Encodes buf cur labels len h =
    ap (λ found. found >>= λ r. r)
      (name_at-Encodes (suc (length buf)) buf cur labels len (Encodes-bound h) h)
