-- ===== src/Infra/Config/Lines.antt =====
-- What the lines of a file can say, and how its tokens, sections and pairs are read.
use dns_relay.Base.{
  ℕ, ◌<◌, ◌≤◌, ◌≡◌, ◌≢◌, refl, ap, ◌∙◌, Bool, true, false, some, List, [], ◌∷◌, ◌++◌, length, All,
  ltb, ◌==◌, ◌>>=◌, arith,
}
use dns_relay.Dns.Wire.Place.{before_zero_all}
use dns_relay.Infra.Config.{Config, key_size, value_str_size, config_inject}
use dns_relay.Infra.Config.File.{
  Load, is_space, hash_sign, equals_sign, open_bracket, close_bracket, skip_spaces, token, copied,
  ends_section, ends_key, ends_value, read_section, read_pair, read_token, read_line,
}

-- What a line can say; each fits one call of `fgets`.
pub data Entry : Type 0 where
  comment : List ℕ → Entry
  section : List ℕ → Entry
  pair : List ℕ → List ℕ → Entry

abbrev pub print : Entry → List ℕ
print (comment s) = hash_sign ∷ s ++ 10 ∷ []
print (section name) = open_bracket ∷ name ++ close_bracket ∷ 10 ∷ []
print (pair key value) = key ++ equals_sign ∷ value ++ 10 ∷ []

-- A byte of a section's name, a key or a value.
abbrev pub IsWord : List ℕ → Type 0
IsWord = All (λ c. (is_space c ≡ false) × ((c == 0) ≡ false))

pub data IsEntry : Entry → Type 0 where
  any_comment : (s : List ℕ) → All (λ c. (c == 10) ≡ false) s → length s ≤ 253 → IsEntry (comment s)
  a_section :
      (name : List ℕ)
      → IsWord name
      → All (λ c. (c == close_bracket) ≡ false) name
      → length name < 64
      → IsEntry (section name)
  a_pair :
      (c : ℕ) (key : List ℕ) (value : List ℕ)
      → IsWord (c ∷ key)
      → All (λ c. (c == equals_sign) ≡ false) (c ∷ key)
      → (c == hash_sign) ≡ false
      → (c == open_bracket) ≡ false
      → length (c ∷ key) < 64
      → IsWord value
      → 0 < length value
      → length value < 128
      → IsEntry (pair (c ∷ key) value)

-- What the lines say, from a section on.
abbrev pub meaning : {A : Type 0} → Config A → List ℕ → List Entry → Config A
meaning c current [] = c
meaning c current (comment s ∷ entries) = meaning c current entries
meaning c current (section name ∷ entries) = meaning c name entries
meaning c current (pair key value ∷ entries) =
    meaning (config_inject c current key value) current entries

-- Tokens.
skip_none : (c : ℕ) (nc : List ℕ) → is_space c ≡ false → skip_spaces (c ∷ nc) ≡ some (c ∷ nc)
unfolding skip_spaces
skip_none c nc e = rw (skip_spaces, e) refl

token_more :
    (stop : ℕ → Bool) (c : ℕ) (nc : List ℕ)
    → stop c ≡ false
    → token stop (c ∷ nc) ≡ (token stop nc >>= λ t. some (c ∷ t.0, t.1))
unfolding token
token_more stop c nc e = rw (token, e) refl

token_end :
    (stop : ℕ → Bool) (c : ℕ) (nc : List ℕ)
    → stop c ≡ true
    → token stop (c ∷ nc) ≡ some ([], c ∷ nc)
unfolding token
token_end stop c nc e = rw (token, e) refl

token_all :
    (stop : ℕ → Bool) (s : List ℕ) (c : ℕ) (nc : List ℕ)
    → All (λ b. stop b ≡ false) s
    → stop c ≡ true
    → token stop (s ++ c ∷ nc) ≡ some (s, c ∷ nc)
token_all stop [] c nc h e = token_end stop c nc e
token_all stop (b ∷ s) c nc (h, hs) e =
    token_more stop b (s ++ c ∷ nc) h
    ∙ ap (λ o. o >>= λ t. some (b ∷ t.0, t.1)) (token_all stop s c nc hs e)

copied_word : (size : ℕ) (s : List ℕ) → IsWord s → length s < size → copied size s ≡ some s
unfolding copied
copied_word size s w h =
    let fits : ltb (length s) size ≡ true = ground arith in
    rw (fits, before_zero_all s (nonzero s w)) refl
  where
    nonzero : (s : List ℕ) → IsWord s → All (λ c. c ≢ 0) s
    nonzero [] w = tt
    nonzero (c ∷ s) (w, ws) = ((λ e. ground (arith, w.1, e)), nonzero s ws)

module _ {A : Type 0} where
  pub section_read :
      (l : Load A) (name r : List ℕ)
      → IsWord name
      → All (λ c. (c == close_bracket) ≡ false) name
      → length name < 64
      → read_section l (name ++ close_bracket ∷ r)
        ≡ some (record l { cur_section_str = name }, true)
  unfolding read_section
  section_read l name r w b n =
      let spaces = skip_word name r w in
      let t = token_all ends_section name close_bracket r (section_bytes name w b) refl in
      rw (spaces, ◌>>=◌, t, copied_word key_size name w n) refl
    where
      skip_word :
          (s r : List ℕ)
          → IsWord s
          → skip_spaces (s ++ close_bracket ∷ r) ≡ some (s ++ close_bracket ∷ r)
      skip_word [] r w = skip_none close_bracket r refl
      skip_word (c ∷ s) r (w, ws) = skip_none c (s ++ close_bracket ∷ r) w.0

      section_bytes :
          (s : List ℕ)
          → IsWord s
          → All (λ c. (c == close_bracket) ≡ false) s
          → All (λ c. ends_section c ≡ false) s
      section_bytes [] w b = tt
      section_bytes (c ∷ s) (w, ws) (b, bs) = (rw (b, w.0) refl, section_bytes s ws bs)

  pub pair_read :
      (l : Load A) (key value r : List ℕ)
      → IsWord key
      → All (λ c. (c == equals_sign) ≡ false) key
      → length key < 64
      → IsWord value
      → 0 < length value
      → length value < 128
      → read_pair l (key ++ equals_sign ∷ (value ++ 10 ∷ r))
        ≡ some (
          record l {
            cur_key_str = key;
            cur_value_str = value;
            config = config_inject l.config l.cur_section_str key value;
          },
          true,
        )
  unfolding read_pair
  pair_read l key value r w b n wv pos m =
      let k = token_all ends_key key equals_sign (value ++ 10 ∷ r) (key_bytes key w b) refl in
      let v = token_all ends_value value 10 r (value_bytes value wv) refl in
      let some_value : (length value == 0) ≡ false = ground arith in
      rw
        (
          k,
          ◌>>=◌,
          copied_word key_size key w n,
          v,
          some_value,
          copied_word value_str_size value wv m,
        )
        refl
    where
      key_bytes :
          (s : List ℕ)
          → IsWord s
          → All (λ c. (c == equals_sign) ≡ false) s
          → All (λ c. ends_key c ≡ false) s
      key_bytes [] w b = tt
      key_bytes (c ∷ s) (w, ws) (b, bs) = (rw (b, w.0) refl, key_bytes s ws bs)

      value_bytes : (s : List ℕ) → IsWord s → All (λ c. ends_value c ≡ false) s
      value_bytes [] w = tt
      value_bytes (c ∷ s) (w, ws) = (rw (w.0, w.1) refl, value_bytes s ws)

  pub line_read :
      (l : Load A) (c : ℕ) (nc : List ℕ)
      → l.line ≡ c ∷ nc
      → is_space c ≡ false
      → read_line l ≡ read_token l (c ∷ nc)
  unfolding read_line
  line_read l c nc e s =
      ap (λ m. skip_spaces m >>= λ nc. read_token l nc) e
      ∙ ap (λ o. o >>= λ nc. read_token l nc) (skip_none c nc s)
