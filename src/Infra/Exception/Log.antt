-- ===== src/Infra/Exception/Log.antt =====
-- The buffer as a log of messages, the last one first, each after a line feed.
use dns_relay.Base.{
  ℕ, zero, suc, ◌+◌, ◌-◌, ◌<◌, ◌≡◌, ◌≢◌, inl, inr, refl, true, false, Option, none, some, List, [],
  ◌∷◌, ◌++◌, length, length-append, take, get_or, arith, ltb, ◌==◌, if◌then◌else◌, update,
  Bool-cases, ap,
}
use dns_relay.Infra.Exception.{
  msg_end, Context, ex_try, ex_catch, copy_to, push_text, ex_throw, c_string, ex_end,
}

-- `text` is what the open record holds.
pub record IsLog (c : Context) (text : List ℕ) : Type 0 where
  pub is_open : c.err_flag ≡ true
  pub fits : c.stack_top + length text ≡ msg_end
  pub bytes : (k : ℕ) → k < length text → c.msg (c.stack_top + k) ≡ get_or text k 0
  pub nonzero : (k : ℕ) → k < length text → get_or text k 0 ≢ 0
  pub ended : c.msg msg_end ≡ 0

get_or-append :
    (xs ys : List ℕ) (k : ℕ)
    → get_or (xs ++ ys) k 0
      ≡ (if ltb k (length xs) then get_or xs k 0 else get_or ys (k - length xs) 0)
get_or-append [] ys k = ground arith
get_or-append (x ∷ xs) ys zero = ground arith
get_or-append (x ∷ xs) ys (suc k) = ground (arith, get_or-append xs ys k)

c_string_lem :
    (fuel i : ℕ) (msg : ℕ → ℕ) (text : List ℕ)
    → length text < fuel
    → ((k : ℕ) → k < length text → msg (i + k) ≡ get_or text k 0)
    → ((k : ℕ) → k < length text → get_or text k 0 ≢ 0)
    → msg (i + length text) ≡ 0
    → c_string fuel msg i ≡ text
unfolding c_string
c_string_lem zero i msg text h bytes nonzero ended = absurd (omega arith)
c_string_lem (suc fuel) i msg [] h bytes nonzero ended = ground arith
c_string_lem (suc fuel) i msg (x ∷ text) h bytes nonzero ended =
    let rest =
      c_string_lem fuel (i + 1) msg text (omega arith) (λ k b. ground (arith, bytes (suc k)))
        (λ k b. nonzero (suc k) (omega arith)) (ground arith) in
    ground (arith, rest, bytes 0, nonzero 0)

pub ex_try-IsLog : (c : Context) → IsLog (ex_try c) []
unfolding ex_try
ex_try-IsLog c = record {
  is_open = refl;
  fits = omega arith;
  bytes = λ k h. absurd (omega arith);
  nonzero = λ k h. absurd (omega arith);
  ended = ground arith;
}

-- The buffer after a push, byte by byte.
pushed-bytes :
    (c : Context) (text new : List ℕ)
    → IsLog c text
    → length new < c.stack_top
    → (k : ℕ) → k < length (10 ∷ new ++ text)
    → update
        (copy_to c.msg (c.stack_top - length new) new)
        (c.stack_top - length new - 1)
        10
        (c.stack_top - length new - 1 + k)
      ≡ get_or (10 ∷ new ++ text) k 0
unfolding copy_to
pushed-bytes c text new v room zero h = ground arith
pushed-bytes c text new v room (suc k) h =
    let after : c.stack_top - length new - 1 + suc k ≡ c.stack_top - length new + k = omega arith in
    let total = length-append new text in
    elim (Bool-cases (ltb k (length new))) [
      | inl here ↦
          let back : c.stack_top - length new + k - (c.stack_top - length new) ≡ k = omega arith in
          ground (arith, get_or-append new text k, after, back)
      | inr past ↦
          let old : c.stack_top - length new + k ≡ c.stack_top + (k - length new) = ground arith in
          ground (arith, get_or-append new text k, after, old, v.bytes (k - length new), total)
    ]

pushed-nonzero :
    (c : Context) (text new : List ℕ)
    → IsLog c text
    → ((k : ℕ) → k < length new → get_or new k 0 ≢ 0)
    → (k : ℕ) → k < length (10 ∷ new ++ text)
    → get_or (10 ∷ new ++ text) k 0 ≢ 0
pushed-nonzero c text new v nonzero zero h e = omega (arith, e)
pushed-nonzero c text new v nonzero (suc k) h e =
    ground (
      arith,
      get_or-append new text k,
      nonzero k,
      v.nonzero (k - length new),
      length-append new text,
    )

pushed-IsLog :
    (c : Context) (text new : List ℕ)
    → IsLog c text
    → 0 < length new
    → length new < c.stack_top
    → ((k : ℕ) → k < length new → get_or new k 0 ≢ 0)
    → (c' : Context) × (push_text c new ≡ some c') × IsLog c' (10 ∷ new ++ text)
unfolding push_text copy_to
pushed-IsLog c text new v some_text room nonzero =
    let g1 : (length new == 0) ≡ false = ground arith in
    let g2 : ltb c.stack_top (length new) ≡ false = ground arith in
    let g3 : (c.stack_top - length new == 0) ≡ false = ground arith in
    let total = length-append new text in
    (
      record c {
        msg =
            update (copy_to c.msg (c.stack_top - length new) new) (c.stack_top - length new - 1) 10;
        stack_top = c.stack_top - length new - 1;
      },
      rw (g1, g2, g3) refl,
      record {
        is_open = v.is_open;
        fits = omega (arith, v.fits, total);
        bytes = pushed-bytes c text new v room;
        nonzero = λ k h. pushed-nonzero c text new v nonzero k h;
        ended = ground (arith, v.fits, v.ended);
      },
    )

push_text-dropped :
    (c : Context) (new : List ℕ)
    → 0 < length new
    → c.stack_top < length new
    → push_text c new ≡ some c
unfolding push_text
push_text-dropped c new p h =
    let g1 : (length new == 0) ≡ false = ground arith in
    let g2 : ltb c.stack_top (length new) ≡ true = ground arith in rw (g1, g2) refl

push_text-underflow :
    (c : Context) (new : List ℕ)
    → 0 < length new
    → c.stack_top ≡ length new
    → push_text c new ≡ none
unfolding push_text
push_text-underflow c new p h =
    let g1 : (length new == 0) ≡ false = ground arith in
    let g2 : ltb c.stack_top (length new) ≡ false = ground arith in
    let g3 : (c.stack_top - length new == 0) ≡ true = ground arith in rw (g1, g2, g3) refl

-- What a throw does to an open record: the message goes in front, after a line feed; one that does
-- not fit is dropped; one that fits exactly makes the code write below the buffer.
pub record Throws (c : Context) (text new : List ℕ) (r : Option Context) : Type 0 where
  pub recorded :
      length new < c.stack_top → (c' : Context) × (r ≡ some c') × IsLog c' (10 ∷ new ++ text)
  pub dropped : c.stack_top < length new → r ≡ some c
  pub underflow : c.stack_top ≡ length new → r ≡ none

ex_throw_open :
    (c : Context) (raw : List ℕ) → c.err_flag ≡ true → ex_throw c raw ≡ push_text c (take 511 raw)
unfolding ex_throw
ex_throw_open c raw e = ap (λ b. push_text (if b then c else ex_try c) (take 511 raw)) e

-- On an open record that holds a text, a throw whose message, cut to 511 bytes, is not empty and
-- has no zero byte puts a line feed and the message in front of the text if the message is shorter
-- than the room left, changes nothing if it is longer, and writes outside the buffer (none) if it
-- is exactly as long.
pub ex_throw-Throws :
    (c : Context) (text raw : List ℕ)
    → IsLog c text
    → 0 < length (take 511 raw)
    → ((k : ℕ) → k < length (take 511 raw) → get_or (take 511 raw) k 0 ≢ 0)
    → Throws c text (take 511 raw) (ex_throw c raw)
ex_throw-Throws c text raw v some_text nonzero = rw (ex_throw_open c raw v.is_open) (record {
  recorded = λ room. pushed-IsLog c text (take 511 raw) v some_text room nonzero;
  dropped = λ over. push_text-dropped c (take 511 raw) some_text over;
  underflow = λ exact. push_text-underflow c (take 511 raw) some_text exact;
})

-- On an open record that holds a text, ex_catch is true exactly if the text is not empty, ex_end
-- returns the text and closes the record, and after it ex_catch is false and a second ex_end
-- returns the empty string.
pub ex_end-reports :
    (c : Context) (text : List ℕ)
    → IsLog c text
    → (ex_catch c ≡ ltb 0 (length text))
      × ((ex_end c).1 ≡ text)
      × (ex_catch (ex_end c).0 ≡ false)
      × ((ex_end (ex_end c).0).1 ≡ [])
unfolding ex_catch ex_end
ex_end-reports c text v =
    let whole =
      c_string_lem 4096 c.stack_top c.msg text (omega (arith, v.fits)) v.bytes v.nonzero
        (rw v.fits v.ended) in
    (ground (arith, v.is_open, v.fits), rw v.is_open whole, rw v.is_open refl, rw v.is_open refl)
