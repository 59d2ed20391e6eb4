-- ===== src/Dns/Cache/Key.antt =====
-- The key of a question, "qclass|qtype|qname", tells questions apart.
use dns_relay.Base.{
  ℕ, zero, suc, ◌+◌, ◌-◌, ◌*◌, ◌/◌, ◌%◌, ◌^◌, ◌<◌, ◌≡◌, inl, inr, refl, sym, ap, ◌∙◌, true, false,
  List, [], ◌∷◌, ◌++◌, arith, ltb, ◌==◌, Bool-cases,
}
use mathlib.Core.List.{append_assoc}
use dns_relay.Dns.Cache.{decimal, cache_key_create}

-- The number before the first '|', and what follows that '|'.
read_number : ℕ → List ℕ → ℕ
read_number n [] = n
read_number n (c ∷ s) = elim (c == 124) [ true ↦ n | false ↦ read_number (n * 10 + (c - 48)) s ]

skip_field : List ℕ → List ℕ
skip_field [] = []
skip_field (c ∷ s) = elim (c == 124) [ true ↦ s | false ↦ skip_field s ]

read_number-digit :
    (n d : ℕ) (s : List ℕ) → d < 10 → read_number n ((48 + d) ∷ s) ≡ read_number (n * 10 + d) s
unfolding read_number
read_number-digit n d s h = ground arith

skip_field-digit : (d : ℕ) (s : List ℕ) → d < 10 → skip_field ((48 + d) ∷ s) ≡ skip_field s
unfolding skip_field
skip_field-digit d s h = ground arith

decimal_one : (fuel n : ℕ) (s : List ℕ) → ltb n 10 ≡ true → decimal (suc fuel) n ++ s ≡ (48 + n) ∷ s
unfolding decimal
decimal_one fuel n s one = rw one refl

decimal_more :
    (fuel n : ℕ) (s : List ℕ)
    → ltb n 10 ≡ false
    → decimal (suc fuel) n ++ s ≡ decimal fuel (n / 10) ++ ((48 + n % 10) ∷ s)
unfolding decimal
decimal_more fuel n s more = rw more (append_assoc (decimal fuel (n / 10)) ((48 + n % 10) ∷ []) s)

below_tenth : (fuel n : ℕ) → n < 10 ^ suc fuel → n / 10 < 10 ^ fuel
below_tenth fuel n h = omega arith

read_number-decimal :
    (fuel n : ℕ) (s : List ℕ)
    → n < 10 ^ fuel
    → read_number 0 (decimal fuel n ++ s) ≡ read_number n s
unfolding decimal
read_number-decimal zero n s h = let z : n ≡ 0 = omega arith in rw z refl
read_number-decimal (suc fuel) n s h = elim (Bool-cases (ltb n 10)) [
  | inl one ↦
      let zeroth : 0 * 10 + n ≡ n = omega arith in
      rw (decimal_one fuel n s one)
        (read_number-digit 0 n s (ground arith) ∙ ap (λ m. read_number m s) zeroth)
  | inr more ↦
      let back : n / 10 * 10 + n % 10 ≡ n = omega arith in
      rw (decimal_more fuel n s more) (
        read_number-decimal fuel (n / 10) ((48 + n % 10) ∷ s) (below_tenth fuel n h)
        ∙ read_number-digit (n / 10) (n % 10) s (omega arith)
        ∙ ap (λ m. read_number m s) back)
]

skip_field-decimal : (fuel n : ℕ) (s : List ℕ) → skip_field (decimal fuel n ++ s) ≡ skip_field s
unfolding decimal
skip_field-decimal zero n s = refl
skip_field-decimal (suc fuel) n s = elim (Bool-cases (ltb n 10)) [
  | inl one ↦ rw (decimal_one fuel n s one) (skip_field-digit n s (ground arith))
  | inr more ↦ rw (decimal_more fuel n s more) (
      skip_field-decimal fuel (n / 10) ((48 + n % 10) ∷ s)
      ∙ skip_field-digit (n % 10) s (omega arith))
]

-- A field of the key, read back.
field_back :
    (n : ℕ) (s : List ℕ)
    → n < 2 ^ 16
    → (read_number 0 (decimal 5 n ++ (124 ∷ s)) ≡ n) × (skip_field (decimal 5 n ++ (124 ∷ s)) ≡ s)
unfolding read_number skip_field
field_back n s h =
    (read_number-decimal 5 n (124 ∷ s) (omega arith), skip_field-decimal 5 n (124 ∷ s))

-- Two questions with 16-bit types and classes that have the same cache key have the same name,
-- type and class.
pub cache_key_create-injective :
    (qname qname' : List ℕ) (qtype qtype' qclass qclass' : ℕ)
    → qtype < 2 ^ 16
    → qtype' < 2 ^ 16
    → qclass < 2 ^ 16
    → qclass' < 2 ^ 16
    → cache_key_create qname qtype qclass ≡ cache_key_create qname' qtype' qclass'
    → (qname ≡ qname') × (qtype ≡ qtype') × (qclass ≡ qclass')
unfolding cache_key_create
cache_key_create-injective qname qname' qtype qtype' qclass qclass' t t' c c' e =
    let (a, b) = field_back qclass (decimal 5 qtype ++ (124 ∷ qname)) c in
    let (a', b') = field_back qclass' (decimal 5 qtype' ++ (124 ∷ qname')) c' in
    let rest = sym b ∙ ap skip_field e ∙ b' in
    let (x, y) = field_back qtype qname t in
    let (x', y') = field_back qtype' qname' t' in
    (
      sym y ∙ ap skip_field rest ∙ y',
      sym x ∙ ap (read_number 0) rest ∙ x',
      sym a ∙ ap (read_number 0) e ∙ a',
    )
