-- ===== src/Infra/Config/Loads.antt =====
-- A file of comments, sections and pairs is read as what it says.
use dns_relay.Base.{
  ℕ, suc, ◌+◌, ◌≡◌, refl, ap, ◌∙◌, true, false, some, List, [], ◌∷◌, ◌++◌, length, drop, map, All,
  append_assoc, ◌==◌,
}
use dns_relay.Infra.Config.{Config, config_inject}
use dns_relay.Infra.Config.File.{
  Load, hash_sign, equals_sign, open_bracket, close_bracket, read_section, read_pair, read_token,
  read_line, fgets, read_lines, config_load_file,
}
use dns_relay.Infra.Config.Lines.{
  Entry, comment, section, pair, print, IsEntry, any_comment, a_section, a_pair, meaning,
  section_read, pair_read, line_read,
}

module _ {A : Type 0} where
  -- One line.
  pub record LineRead (l : Load A) (entry : Entry) (entries : List Entry) : Type 0 where
    pub after : Load A
    pub result : read_line (fgets l (print entry)) ≡ some (after, true)
    pub means :
        meaning l.config l.cur_section_str (entry ∷ entries)
        ≡ meaning after.config after.cur_section_str entries

  entry-LineRead :
      (l : Load A) (entry : Entry) (entries : List Entry) → IsEntry entry → LineRead l entry entries
  entry-LineRead l _ entries (any_comment s one_line fits) = record {
    after = fgets l (print (comment s));
    result =
        line_read (fgets l (print (comment s))) hash_sign
          (s ++ 10 ∷ [] ++ 0 ∷ drop (suc (length (s ++ 10 ∷ [])) + 1) l.line) refl refl;
    means = refl;
  }
  entry-LineRead l _ entries (a_section name w b n) =
      let stale = drop (length (print (section name)) + 1) l.line in
      let l1 = fgets l (print (section name)) in
      let text : name ++ close_bracket ∷ 10 ∷ [] ++ 0 ∷ stale
          ≡ name ++ close_bracket ∷ (10 ∷ 0 ∷ stale) =
        append_assoc name (close_bracket ∷ 10 ∷ []) (0 ∷ stale) in
      record {
        after = record l1 { cur_section_str = name };
        result =
            line_read l1 open_bracket (name ++ close_bracket ∷ 10 ∷ [] ++ 0 ∷ stale) refl refl
            ∙ ap (read_section l1) text
            ∙ section_read l1 name (10 ∷ 0 ∷ stale) w b n;
        means = refl;
      }
  entry-LineRead l _ entries (a_pair c key value w b not_comment not_section n wv pos m) =
      let stale = drop (length (print (pair (c ∷ key) value)) + 1) l.line in
      let l1 = fgets l (print (pair (c ∷ key) value)) in
      let text : print (pair (c ∷ key) value) ++ 0 ∷ stale
          ≡ (c ∷ key) ++ equals_sign ∷ (value ++ 10 ∷ (0 ∷ stale)) =
        append_assoc ((c ∷ key) ++ equals_sign ∷ value) (10 ∷ []) (0 ∷ stale)
        ∙ append_assoc (c ∷ key) (equals_sign ∷ value) (10 ∷ 0 ∷ stale) in
      record {
        after = record l1 {
          cur_key_str = c ∷ key;
          cur_value_str = value;
          config = config_inject l.config l.cur_section_str (c ∷ key) value;
        };
        result =
            line_read l1 c (key ++ equals_sign ∷ (value ++ 10 ∷ (0 ∷ stale))) text w.0.0
            ∙ a_pair_line l1 c _ not_comment not_section
            ∙ pair_read l1 (c ∷ key) value (0 ∷ stale) w b n wv pos m;
        means = refl;
      }
    where
      a_pair_line :
          (l : Load A) (c : ℕ) (nc : List ℕ)
          → (c == hash_sign) ≡ false
          → (c == open_bracket) ≡ false
          → read_token l (c ∷ nc) ≡ read_pair l (c ∷ nc)
      a_pair_line l c nc e f = rw (e, f) refl

  one_line :
      (l after : Load A) (s : List ℕ) (lines : List (List ℕ))
      → read_line (fgets l s) ≡ some (after, true)
      → read_lines l (s ∷ lines) ≡ read_lines after lines
  unfolding read_lines
  one_line l after s lines e = rw e refl

  no_lines : (l : Load A) → read_lines l [] ≡ some l
  unfolding read_lines
  no_lines l = refl

  pub record LinesRead (l : Load A) (entries : List Entry) : Type 0 where
    pub after : Load A
    pub result : read_lines l (map print entries) ≡ some after
    pub means : meaning l.config l.cur_section_str entries ≡ after.config

  entries-LinesRead :
      (l : Load A) (entries : List Entry) → All IsEntry entries → LinesRead l entries
  entries-LinesRead l [] h = record { after = l; result = no_lines l; means = refl }
  entries-LinesRead l (e ∷ entries) (h, hs) =
      let first = entry-LineRead l e entries h in
      let rest = entries-LinesRead first.after entries hs in
      record {
        after = rest.after;
        result = one_line l first.after (print e) (map print entries) first.result ∙ rest.result;
        means = first.means ∙ rest.means;
      }

  -- A file of comments of one line, section lines and pairs, whose names, keys and values have no
  -- white space and no zero bytes and fit their buffers, whose section names have no closing
  -- bracket, whose keys are not empty, have no equals sign and do not start like a comment or a
  -- section, and whose values are not empty, is loaded without an error, and the configuration
  -- then is the old one with every pair injected under the section before it, in order.
  pub config_load_file-print :
      (c : Config A) (line : List ℕ) (entries : List Entry)
      → All IsEntry entries
      → config_load_file c line (some (map print entries)) ≡ some (meaning c [] entries, true)
  unfolding config_load_file
  config_load_file-print c line entries h =
      let w =
        entries-LinesRead
          (record {
            config = c;
            line = line;
            cur_section_str = [];
            cur_key_str = [];
            cur_value_str = [];
          })
          entries h in
      rw (w.result, w.means) refl
