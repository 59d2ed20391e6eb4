-- ===== src/Infra/Config/Entries.antt =====
-- The configuration as a map from sections and keys to entries: what the writes do to it.
use dns_relay.Base.{
  ℕ, ◌≡◌, refl, ap, sym, ◌∙◌, subst, inl, inr, Bool, true, false, ◌&&◌, Option, none, some, List,
  if◌then◌else◌, Option-cases, Bool-cases, arith,
}
use dns_relay.Stl.Key.{str_key, str_equal, eq_of_str_equal}
use dns_relay.Stl.HashMap.{hash_map_get, hash_map_put}
use dns_relay.Stl.HashMap.Laws as MapLaws
use dns_relay.Infra.Config.{
  ConfigValue, text, cooked, ConfigSection, Config, create_section, config_init, section_of,
  put_entry, config_set, config_inject,
}

some_injective : {A : Type 0} {a b : A} → some a ≡ some b → a ≡ b
some_injective {a = a} e = ap (either a) e
  where
    either : {A : Type 0} → A → Option A → A
    either a none = a
    either a (some b) = b

if_true : {A : Type 0} {b : Bool} (x y : A) → b ≡ true → (if b then x else y) ≡ x
if_true x y e = rw e refl

if_false : {A : Type 0} {b : Bool} (x y : A) → b ≡ false → (if b then x else y) ≡ y
if_false x y e = rw e refl

module _ {A : Type 0} where
  abbrev entry_in : Option (ConfigSection A) → List ℕ → Option (ConfigValue A)
  entry_in none key = none
  entry_in (some sec) key = hash_map_get sec key

  abbrev pub entry_of : Config A → List ℕ → List ℕ → Option (ConfigValue A)
  entry_of c section key = entry_in (hash_map_get c section) key

  pub record IsValid (c : Config A) : Type 0 where
    pub sections : MapLaws.IsValid c
    pub entries :
        (section : List ℕ) (sec : ConfigSection A)
        → hash_map_get c section ≡ some sec
        → MapLaws.IsValid sec

  section_new :
      (c : Config A) (section : List ℕ)
      → hash_map_get c section ≡ none
      → section_of c section ≡ create_section
  unfolding section_of
  section_new c section e = rw (section_of, e) refl

  section_old :
      (c : Config A) (section : List ℕ) (sec : ConfigSection A)
      → hash_map_get c section ≡ some sec
      → section_of c section ≡ sec
  unfolding section_of
  section_old c section sec e = rw (section_of, e) refl

  created :
      MapLaws.IsValid (create_section {A = A})
      × ((k : List ℕ) → hash_map_get (create_section {A = A}) k ≡ none)
  unfolding create_section
  created = MapLaws.create-IsValid

  -- The section that is written to holds the entries of the section so far.
  section_of-entries :
      (c : Config A) (section : List ℕ)
      → IsValid c
      → MapLaws.IsValid (section_of c section)
        × ((k : List ℕ) → hash_map_get (section_of c section) k ≡ entry_of c section k)
  section_of-entries c section v = elim (Option-cases (hash_map_get c section)) [
    | inl e ↦ rw (section_new c section e, e) created
    | inr (sec, e) ↦ rw (section_old c section sec e, e) (v.entries section sec e, λ k. refl)
  ]

  pub record Puts (c : Config A) (section key : List ℕ) (entry : ConfigValue A) (r : Config A)
      : Type 0 where
    pub valid : IsValid r
    pub reads :
        (s k : List ℕ)
        → entry_of r s k
          ≡ (if str_equal section s && str_equal key k then some entry else entry_of c s k)

  pub put_entry-Puts :
      (c : Config A) (section key : List ℕ) (entry : ConfigValue A)
      → IsValid c
      → Puts c section key entry (put_entry c section key entry)
  unfolding put_entry
  put_entry-Puts c section key entry v =
      let sec = section_of c section in
      let (old, holds) = section_of-entries c section v in
      let inner = MapLaws.hash_map_put-Put sec key entry old in
      let new = (hash_map_put sec key entry).0 in
      let outer = MapLaws.hash_map_put-Put c section new v.sections in
      record {
        valid = record {
          sections = outer.valid;
          entries = λ s t e. elim (Bool-cases (str_equal section s)) [
            | inl same ↦
                let it : some new ≡ some t = sym (outer.reads s ∙ if_true _ _ same) ∙ e in
                subst MapLaws.IsValid (some_injective it) inner.valid
            | inr other ↦ v.entries s t (sym (outer.reads s ∙ if_false _ _ other) ∙ e)
          ];
        };
        reads = λ s k. elim (Bool-cases (str_equal section s)) [
          | inl same ↦
              let here = eq_of_str_equal section s same in
              ap (λ o. entry_in o k) (outer.reads s ∙ if_true _ _ same)
              ∙ inner.reads k
              ∙ rw same (
                  ap (λ o. if str_equal key k then some entry else o)
                    (holds k ∙ ap (λ n. entry_of c n k) here))
          | inr other ↦ ap (λ o. entry_in o k) (outer.reads s ∙ if_false _ _ other) ∙ rw other refl
        ];
      }

  -- What a configuration module promises of its writes.
  pub record Writes (c : Config A) (section key : List ℕ) (a : A) (s : List ℕ) : Type 0 where
    pub set : Puts c section key (cooked a) (config_set c section key a)
    pub injected : Puts c section key (text s) (config_inject c section key s)

  -- On a valid configuration config_set stores a cooked value and config_inject a string under the
  -- section and the key, which are created if they are missing; every other entry stays, and the
  -- configuration stays valid.
  pub config-Writes :
      (c : Config A) (section key : List ℕ) (a : A) (s : List ℕ)
      → IsValid c
      → Writes c section key a s
  unfolding config_set config_inject
  config-Writes c section key a s v = record {
    set = put_entry-Puts c section key (cooked a) v;
    injected = put_entry-Puts c section key (text s) v;
  }

  pub config_init-IsValid :
      IsValid (config_init {A = A}) × ((s k : List ℕ) → entry_of (config_init {A = A}) s k ≡ none)
  unfolding config_init
  config_init-IsValid =
      let (v, empty) = MapLaws.create-IsValid {K = List ℕ} {V = ConfigSection A} in
      (
        record { sections = v; entries = λ s t e. absurd (ground (arith, empty s, e)) },
        λ s k. ap (λ o. entry_in o k) (empty s),
      )
