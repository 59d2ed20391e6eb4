-- ===== src/Dns/Wire/Place.antt =====
-- Bytes at a place of a memory.
use Prim.Native.Nat.{bit_or, bit_xor}
use dns_relay.Base.{
  ℕ, zero, suc, ◌+◌, ◌<◌, ◌≤◌, ◌≡◌, ◌≢◌, refl, ap, sym, ◌∙◌, Bool, true, false, ◌&&◌, Option, some,
  List, [], ◌∷◌, ◌++◌, length, take, drop, get_elem?, All, ◌==◌, ==_iff, Bool-cases, inl, inr,
  ◌>>=◌, arith, append_assoc, drop-append, length-append, get_elem?-append, take-append-drop,
  length-take, length-drop, drop-drop, leb, ◌-◌,
}
use dns_relay.Dns.Wire.Memory.{Output, put, c_str, before_zero}

pub record At (buf : List ℕ) (cur : ℕ) (s : List ℕ) : Type 0 where
  pub before : List ℕ
  pub after : List ℕ
  pub parts : buf ≡ before ++ (s ++ after)
  pub place : length before ≡ cur

pub At-get_elem? :
    {buf : List ℕ} {cur b : ℕ} {s : List ℕ} → At buf cur (b ∷ s) → get_elem? buf cur ≡ some b
At-get_elem? {b = b} {s = s} h =
    rw (h.parts, ← h.place) (get_elem?-append h.before b (s ++ h.after))

pub At-drop : {buf : List ℕ} {cur : ℕ} {s : List ℕ} (h : At buf cur s) → drop cur buf ≡ s ++ h.after
At-drop {s = s} h = rw (h.parts, ← h.place) (drop-append h.before (s ++ h.after))

pub At-bound : {buf : List ℕ} {cur : ℕ} {s : List ℕ} → At buf cur s → cur + length s ≤ length buf
At-bound {s = s} h =
    rw h.parts
      (omega (arith, h.place, length-append h.before (s ++ h.after), length-append s h.after))

pub At-skip :
    {buf : List ℕ} {cur : ℕ} (s t : List ℕ) → At buf cur (s ++ t) → At buf (cur + length s) t
At-skip s t h = record {
  before = h.before ++ s;
  after = h.after;
  parts =
      h.parts
      ∙ ap (λ m. h.before ++ m) (append_assoc s t h.after)
      ∙ sym (append_assoc h.before s (t ++ h.after));
  place = omega (arith, h.place, length-append h.before s);
}

pub At-front : {buf : List ℕ} {cur : ℕ} (s t : List ℕ) → At buf cur (s ++ t) → At buf cur s
At-front s t h = record {
  before = h.before;
  after = t ++ h.after;
  parts = h.parts ∙ ap (λ m. h.before ++ m) (append_assoc s t h.after);
  place = h.place;
}

-- A longer memory.
pub At-more :
    {buf : List ℕ} {cur : ℕ} {s : List ℕ} (more : List ℕ) → At buf cur s → At (buf ++ more) cur s
At-more {s = s} more h = record {
  before = h.before;
  after = h.after ++ more;
  parts =
      ap (λ m. m ++ more) h.parts
      ∙ append_assoc h.before (s ++ h.after) more
      ∙ ap (λ m. h.before ++ m) (append_assoc s h.after more);
  place = h.place;
}

pub At-here : (w s r : List ℕ) → At (w ++ (s ++ r)) (length w) s
At-here w s r = record { before = w; after = r; parts = refl; place = refl }

-- What starts at an offset.
pub drop-At : (mem s r : List ℕ) (n : ℕ) → n ≤ length mem → drop n mem ≡ s ++ r → At mem n s
drop-At mem s r n h e = record {
  before = take n mem;
  after = r;
  parts = sym (take-append-drop n mem) ∙ ap (λ m. take n mem ++ m) e;
  place = omega (arith, length-take n mem);
}

pub At-offset : (mem s : List ℕ) (n k : ℕ) → n ≤ length mem → At (drop n mem) k s → At mem (n + k) s
At-offset mem s n k h a = record {
  before = take n mem ++ a.before;
  after = a.after;
  parts =
      sym (take-append-drop n mem)
      ∙ ap (λ m. take n mem ++ m) a.parts
      ∙ sym (append_assoc (take n mem) a.before (s ++ a.after));
  place = omega (arith, a.place, length-append (take n mem) a.before, length-take n mem);
}

-- A place inside the front part of a memory.
within_start :
    (w x s r : List ℕ) → w ++ x ≡ s ++ r → length s ≤ length w → (r' : List ℕ) × (w ≡ s ++ r')
within_start w x [] r e h = (w, refl)
within_start [] x (c ∷ s) r e h = absurd (omega arith)
within_start (m ∷ w) x (c ∷ s) r e h =
    let head : m ≡ c = cc in
    let tail : w ++ x ≡ s ++ r = cc in
    let (r', p) = within_start w x s r tail (omega arith) in (r', rw (head, p) refl)

within_parts :
    (w x b s r : List ℕ)
    → w ++ x ≡ b ++ (s ++ r)
    → length b + length s ≤ length w
    → (r' : List ℕ) × (w ≡ b ++ (s ++ r'))
within_parts w x [] s r e h = within_start w x s r e (omega arith)
within_parts [] x (c ∷ b) s r e h = absurd (omega arith)
within_parts (m ∷ w) x (c ∷ b) s r e h =
    let head : m ≡ c = cc in
    let tail : w ++ x ≡ b ++ (s ++ r) = cc in
    let (r', p) = within_parts w x b s r tail (omega arith) in (r', rw (head, p) refl)

pub At-within :
    {w s : List ℕ} (x : List ℕ) {k : ℕ} → At (w ++ x) k s → k + length s ≤ length w → At w k s
At-within {w = w} {s = s} x a h =
    let (r, p) = within_parts w x a.before s a.after a.parts (omega (arith, a.place)) in
    record { before = a.before; after = r; parts = p; place = a.place }

-- Bytes written at the cursor.
abbrev pub after : Output → List ℕ → Output
after o bytes = record { written = o.written ++ bytes; room = drop (length bytes) o.room }

pub put-after :
    (o : Output) (bytes : List ℕ)
    → length bytes ≤ length o.room
    → put o bytes ≡ some (after o bytes)
unfolding put
put-after o bytes h =
    let fits : leb (length bytes) (length o.room) ≡ true = ground arith in rw fits refl

pub after-after : (o : Output) (a b : List ℕ) → after (after o a) b ≡ after o (a ++ b)
after-after o a b =
    let n : length (a ++ b) ≡ length a + length b = length-append a b in
    rw (append_assoc o.written a b, n, drop-drop (length b) (length a) o.room) refl

-- A write, and what is written after it.
pub put_then :
    (o : Output) (a b : List ℕ) (f : Output → Option Output)
    → length a ≤ length o.room
    → f (after o a) ≡ some (after (after o a) b)
    → (put o a >>= f) ≡ some (after o (a ++ b))
put_then o a b f h e = rw (put-after o a h) (e ∙ ap some (after-after o a b))

pub length-room : (o : Output) (a : List ℕ) → length (after o a).room ≡ length o.room - length a
length-room o a = length-drop (length a) o.room

-- Strings.
c_str_byte :
    (b : ℕ) (m : List ℕ) → (b == 0) ≡ false → c_str (b ∷ m) ≡ (c_str m >>= λ s. some (b ∷ s))
unfolding c_str
c_str_byte b m e = rw (e, c_str) refl

before_zero_byte : (b : ℕ) (m : List ℕ) → (b == 0) ≡ false → before_zero (b ∷ m) ≡ b ∷ before_zero m
unfolding before_zero
before_zero_byte b m e = rw (e, before_zero) refl

pub c_str-zero : (s r : List ℕ) → All (λ c. c ≢ 0) s → c_str (s ++ 0 ∷ r) ≡ some s
unfolding c_str
c_str-zero [] r h = refl
c_str-zero (b ∷ s) r (h, hs) =
    c_str_byte b (s ++ 0 ∷ r) (ground (arith, h)) ∙ rw (c_str-zero s r hs) refl

pub before_zero_all : (s : List ℕ) → All (λ c. c ≢ 0) s → before_zero s ≡ s
unfolding before_zero
before_zero_all [] h = refl
before_zero_all (b ∷ s) (h, hs) =
    before_zero_byte b s (ground (arith, h)) ∙ ap (λ t. b ∷ t) (before_zero_all s hs)

-- The flag of a pointer on the 14 bits of its offset.
agree_to : (ℕ → ℕ) → (ℕ → ℕ) → ℕ → Bool
agree_to f g zero = true
agree_to f g (suc bound) = (f bound == g bound) && agree_to f g bound

agree_to-equal :
    (f g : ℕ → ℕ) (bound : ℕ) → agree_to f g bound ≡ true → (i : ℕ) → i < bound → f i ≡ g i
unfolding agree_to
agree_to-equal f g zero agree i below = absurd (omega arith)
agree_to-equal f g (suc bound) agree i below = elim (Bool-cases (i == bound)) [
  | inl last ↦
      let e = (==_iff i bound).0 last in
      rw e ((==_iff (f bound) (g bound)).0 (ground (arith, agree)))
  | inr other ↦ agree_to-equal f g bound (ground (arith, agree)) i (ground (arith, below, other))
]

or_table : agree_to (λ n. bit_or n 0xC000) (λ n. 0xC000 + n) 16384 ≡ true
unfolding agree_to
or_table = refl

xor_table : agree_to (λ n. bit_xor (0xC000 + n) 0xC000) (λ n. n) 16384 ≡ true
unfolding agree_to
xor_table = refl

pub pointer_or : (n : ℕ) → n < 16384 → bit_or n 0xC000 ≡ 0xC000 + n
pointer_or n h = agree_to-equal (λ n. bit_or n 0xC000) (λ n. 0xC000 + n) 16384 or_table n h

pub pointer_xor : (n : ℕ) → n < 16384 → bit_xor (0xC000 + n) 0xC000 ≡ n
pointer_xor n h = agree_to-equal (λ n. bit_xor (0xC000 + n) 0xC000) (λ n. n) 16384 xor_table n h
