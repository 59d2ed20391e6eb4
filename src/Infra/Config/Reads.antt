-- ===== src/Infra/Config/Reads.antt =====
-- `config_get`: a value is parsed when it is first read.
use dns_relay.Base.{
  ℕ, ◌<◌, ◌≡◌, refl, ap, inl, inr, false, ◌&&◌, ◌||◌, Option, none, some, List, if◌then◌else◌,
  Option-cases, Bool-cases, arith, leb, length,
}
use dns_relay.Stl.Key.{str_key, str_equal, eq_of_str_equal}
use dns_relay.Stl.HashMap.{hash_map_get}
use dns_relay.Infra.Config.{
  ConfigValue, text, cooked, Config, ConfigParser, Lookup, found, absent, unparsed, key_size,
  put_entry, cook, config_get,
}
use dns_relay.Infra.Config.Entries.{entry_of, IsValid, put_entry-Puts}

module _ {A : Type 0} where
  -- What the read of an entry gives, and the entry after it.
  pub data Reading (parser : Option (ConfigParser A)) (key : List ℕ)
      : Option (ConfigValue A) → Lookup A → Option (ConfigValue A) → Type 0 where
    missing : Reading parser key none absent none
    as_text :
        (s : List ℕ)
        → parser ≡ none
        → Reading parser key (some (text s)) (found (text s)) (some (text s))
    as_cooked : (a : A) → Reading parser key (some (cooked a)) (found (cooked a)) (some (cooked a))
    first_read :
        (s : List ℕ) (p : ConfigParser A) (a : A)
        → parser ≡ some p
        → p key s ≡ some a
        → Reading parser key (some (text s)) (found (cooked a)) (some (cooked a))
    refused :
        (s : List ℕ) (p : ConfigParser A)
        → parser ≡ some p
        → p key s ≡ none
        → Reading parser key (some (text s)) unparsed (some (text s))

  -- A read as it is promised: the result, and no other entry changes.
  pub record Gets (parser : Option (ConfigParser A)) (c : Config A) (section key : List ℕ)
      (r : Option (Config A × Lookup A)) : Type 0 where
    pub after : Config A
    pub result : Lookup A
    pub entry : Option (ConfigValue A)
    pub returns : r ≡ some (after, result)
    pub valid : IsValid after
    pub reading : Reading parser key (entry_of c section key) result entry
    pub reads :
        (s k : List ℕ)
        → entry_of after s k
          ≡ (if str_equal section s && str_equal key k then entry else entry_of c s k)

  -- The entry decides.
  answer :
      Option (ConfigParser A)
      → Config A
      → List ℕ
      → List ℕ
      → Option (ConfigValue A)
      → Config A × Lookup A
  answer parser c section key none = (c, absent)
  answer parser c section key (some entry) = cook parser c section key entry

  config_get-answer :
      (parser_of : List ℕ → Option (ConfigParser A)) (c : Config A) (section key : List ℕ)
      → length section < key_size
      → length key < key_size
      → config_get parser_of c section key
        ≡ some (answer (parser_of section) c section key (entry_of c section key))
  unfolding config_get answer
  config_get-answer parser_of c section key hs hk =
      let fits : (leb key_size (length key) || leb key_size (length section)) ≡ false =
        ground arith in
      elim (Option-cases (hash_map_get c section)) [
        | inl e ↦ rw (config_get, fits, e) refl
        | inr (sec, e) ↦ elim (Option-cases (hash_map_get sec key)) [
          | inl f ↦ rw (config_get, fits, e, f) refl
          | inr (entry, f) ↦ rw (config_get, fits, e, f) refl
        ]
      ]

  -- An entry put back as it is.
  same_entry :
      (c : Config A) (section key s k : List ℕ)
      → entry_of c s k ≡ (
          if str_equal section s && str_equal key k then entry_of c section key else entry_of c s k)
  same_entry c section key s k = elim (Bool-cases (str_equal section s)) [
    | inl e ↦ elim (Bool-cases (str_equal key k)) [
      | inl f ↦ rw (e, f) (rw (eq_of_str_equal section s e, eq_of_str_equal key k f) refl)
      | inr f ↦ rw (e, f) refl
    ]
    | inr e ↦ rw e refl
  ]

  unchanged :
      (parser : Option (ConfigParser A)) (c : Config A) (section key : List ℕ)
      (r : Option (Config A × Lookup A)) (result : Lookup A)
      → IsValid c
      → r ≡ some (c, result)
      → Reading parser key (entry_of c section key) result (entry_of c section key)
      → Gets parser c section key r
  unchanged parser c section key r result v e reading = record {
    after = c;
    result = result;
    entry = entry_of c section key;
    returns = e;
    valid = v;
    reading = reading;
    reads = same_entry c section key;
  }

  answer_first :
      (p : ConfigParser A) (c : Config A) (section key s : List ℕ) (a : A)
      → p key s ≡ some a
      → cook (some p) c section key (text s)
        ≡ (put_entry c section key (cooked a), found (cooked a))
  unfolding cook
  answer_first p c section key s a e = rw (cook, e) refl

  answer_refused :
      (p : ConfigParser A) (c : Config A) (section key s : List ℕ)
      → p key s ≡ none
      → cook (some p) c section key (text s) ≡ (c, unparsed)
  unfolding cook
  answer_refused p c section key s e = rw (cook, e) refl

  answer-Gets :
      (parser : Option (ConfigParser A)) (c : Config A) (section key : List ℕ)
      (entry : Option (ConfigValue A))
      → IsValid c
      → entry_of c section key ≡ entry
      → Gets parser c section key (some (answer parser c section key entry))
  unfolding answer cook
  answer-Gets parser c section key none v e =
      unchanged parser c section key _ absent v refl (rw e missing)
  answer-Gets none c section key (some (text s)) v e =
      unchanged none c section key _ (found (text s)) v refl (rw e (as_text s refl))
  answer-Gets none c section key (some (cooked a)) v e =
      unchanged none c section key _ (found (cooked a)) v refl (rw e (as_cooked a))
  answer-Gets (some p) c section key (some (cooked a)) v e =
      unchanged (some p) c section key _ (found (cooked a)) v refl (rw e (as_cooked a))
  answer-Gets (some p) c section key (some (text s)) v e = elim (Option-cases (p key s)) [
    | inl f ↦
        unchanged (some p) c section key _ unparsed v (ap some (answer_refused p c section key s f))
          (rw e (refused s p refl f))
    | inr (a, f) ↦
        let w = put_entry-Puts c section key (cooked a) v in
        record {
          after = put_entry c section key (cooked a);
          result = found (cooked a);
          entry = some (cooked a);
          returns = ap some (answer_first p c section key s a f);
          valid = w.valid;
          reading = rw e (first_read s p a refl f);
          reads = w.reads;
        }
  ]

  -- On a valid configuration, with a section and a key shorter than 64 bytes, config_get returns 1
  -- for an entry that is missing, the value of one that is cooked or has no parser, and otherwise
  -- the result of the parser on its string, which takes the place of the string, or -1 if the
  -- parser fails; no other entry changes, and the configuration stays valid.
  pub config_get-Gets :
      (parser_of : List ℕ → Option (ConfigParser A)) (c : Config A) (section key : List ℕ)
      → IsValid c
      → length section < key_size
      → length key < key_size
      → Gets (parser_of section) c section key (config_get parser_of c section key)
  config_get-Gets parser_of c section key v hs hk =
      rw (config_get-answer parser_of c section key hs hk)
        (answer-Gets (parser_of section) c section key (entry_of c section key) v refl)
