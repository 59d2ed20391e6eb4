-- ===== src/Dns/Wire/NameTrip.antt =====
-- What `name_serialize` writes reads back as the name.
use Prim.Native.Nat.{bit_or}
use dns_relay.Base.{
  ℕ, zero, suc, ◌+◌, ◌*◌, ◌/◌, ◌%◌, ◌<◌, ◌≤◌, ◌≡◌, refl, ap, sym, subst, ◌∙◌, Bool, true, false,
  Option, none, some, List, [], ◌∷◌, ◌++◌, length, get_elem?, All, ◌==◌, ltb, ◌>>=◌, arith,
  append_assoc, length-append, append-nil,
}
use dns_relay.Dns.Wire.Memory.{Output, h2n_2, put}
use dns_relay.Dns.Wire.Name.{find_previous_name, suffix_loop, name_serialize}
use dns_relay.Dns.Wire.Labels.{wire, IsLabel}
use dns_relay.Dns.Wire.Place.{
  At, At-here, At-within, At-more, At-get_elem?, At-skip, pointer_or, after, put-after,
}
use dns_relay.Dns.Wire.NameRead.{Encodes, ended, pointer, next_label_short}
use dns_relay.Dns.Wire.Search.{find_previous_name-finds, find_previous_name_decides}

-- The place that the search finds, if any, ends before the cursor, so that writing at the cursor
-- does not change it.
abbrev ends_before : Output → List ℕ → Option (Option ℕ) → Bool
ends_before o name (some (some off)) = ltb (12 + off + length name) (length o.written)
ends_before o name _ = true

abbrev pub is_settled : Output → List ℕ → Bool
is_settled o name = ends_before o name (find_previous_name o name)

-- The loop over the labels when the name is not found.
loop_label :
    (fuel : ℕ) (o : Output) (name : List ℕ) (i head : ℕ)
    → get_elem? (name ++ 0 ∷ []) i ≡ some head
    → 0 < head
    → head ≤ 63
    → find_previous_name o name ≡ some none
    → suffix_loop (suc fuel) o name i ≡ suffix_loop fuel o name (i + head + 1)
unfolding suffix_loop
loop_label fuel o name i head e pos short absent =
    let nonzero : (head == 0) ≡ false = ground arith in
    rw (e, ◌>>=◌, nonzero, absent, next_label_short i head short, suffix_loop) refl

loop_end :
    (fuel : ℕ) (o : Output) (name : List ℕ) (i : ℕ)
    → get_elem? (name ++ 0 ∷ []) i ≡ some 0
    → suffix_loop (suc fuel) o name i ≡ some (i, none)
unfolding suffix_loop
loop_end fuel o name i e = rw (e, ◌>>=◌, suffix_loop) refl

loop_found :
    (fuel : ℕ) (o : Output) (name : List ℕ) (i head off : ℕ)
    → get_elem? (name ++ 0 ∷ []) i ≡ some head
    → 0 < head
    → find_previous_name o name ≡ some (some off)
    → suffix_loop (suc fuel) o name i ≡ some (i, some off)
unfolding suffix_loop
loop_found fuel o name i head off e pos found =
    let nonzero : (head == 0) ≡ false = ground arith in
    rw (e, ◌>>=◌, nonzero, found, suffix_loop) refl

suffix_loop-absent :
    (fuel : ℕ) (o : Output) (name : List ℕ) (i : ℕ) (labels : List (List ℕ))
    → All IsLabel labels
    → length (wire labels) < fuel
    → At (name ++ 0 ∷ []) i (wire labels ++ 0 ∷ [])
    → find_previous_name o name ≡ some none
    → suffix_loop fuel o name i ≡ some (i + length (wire labels), none)
unfolding wire
suffix_loop-absent zero o name i labels h lt a absent = absurd (omega arith)
suffix_loop-absent (suc fuel) o name i [] h lt a absent =
    loop_end fuel o name i (At-get_elem? a) ∙ ap (λ j. some (j, none)) (omega arith)
suffix_loop-absent (suc fuel) o name i (label ∷ labels) (h, hs) lt a absent =
    let a' : At (name ++ 0 ∷ []) i ((length label ∷ label) ++ (wire labels ++ 0 ∷ [])) =
      rw (← append_assoc (length label ∷ label) (wire labels) (0 ∷ [])) a in
    let next : At (name ++ 0 ∷ []) (i + length label + 1) (wire labels ++ 0 ∷ []) =
      let k : i + length label + 1 ≡ i + length (length label ∷ label) = omega arith in
      rw k (At-skip (length label ∷ label) (wire labels ++ 0 ∷ []) a') in
    let n : i + length label + 1 + length (wire labels)
        ≡ i + length ((length label ∷ label) ++ wire labels) =
      omega (arith, length-append label (wire labels)) in
    loop_label fuel o name i (length label) (At-get_elem? a') h.nonempty h.short absent
    ∙ suffix_loop-absent fuel o name (i + length label + 1) labels hs
        (omega (arith, lt, length-append label (wire labels))) next absent
    ∙ ap (λ j. some (j, none)) n

-- What is written for a name: some bytes that encode it, whatever follows them.
pub record Written (o : Output) (labels : List (List ℕ)) : Type 0 where
  pub bytes : List ℕ
  pub result : name_serialize o (wire labels) ≡ some (after o bytes)
  pub short : length bytes ≤ length (wire labels) + 1
  pub reads :
      (r : List ℕ) → Encodes ((o.written ++ bytes) ++ r) (length o.written) labels (length bytes)

serialize_absent :
    (o : Output) (name : List ℕ) (i : ℕ)
    → suffix_loop (suc (length name)) o name 0 ≡ some (i, none)
    → name_serialize o name ≡ put o (name ++ 0 ∷ [])
unfolding name_serialize
serialize_absent o name i e = rw (e, ◌>>=◌) refl

serialize_found :
    (o : Output) (name : List ℕ) (off : ℕ)
    → suffix_loop (suc (length name)) o name 0 ≡ some (0, some off)
    → name_serialize o name ≡ put o (h2n_2 (bit_or (off + 12) 0xC000))
unfolding name_serialize
serialize_found o name off e = rw (e, ◌>>=◌) refl

-- The name as it is.
whole :
    (o : Output) (labels : List (List ℕ)) (i : ℕ)
    → All IsLabel labels
    → length (wire labels) < length o.room
    → suffix_loop (suc (length (wire labels))) o (wire labels) 0 ≡ some (i, none)
    → Written o labels
whole o labels i h room e =
    let n : length (wire labels ++ 0 ∷ []) ≡ length (wire labels) + 1 =
      length-append (wire labels) (0 ∷ []) in
    record {
      bytes = wire labels ++ 0 ∷ [];
      result =
          serialize_absent o (wire labels) i e
          ∙ put-after o (wire labels ++ 0 ∷ []) (omega (arith, n));
      short = omega (arith, n);
      reads = λ r.
          subst
            (λ k. Encodes ((o.written ++ (wire labels ++ 0 ∷ [])) ++ r) (length o.written) labels k)
            (sym n)
            (ended (length o.written) labels h (
              rw (append_assoc o.written (wire labels ++ 0 ∷ []) r)
                (At-here o.written (wire labels ++ 0 ∷ []) r)));
    }

pointer_bytes : (t : ℕ) → t < 16384 → h2n_2 (bit_or t 0xC000) ≡ (192 + t / 256) ∷ t % 256 ∷ []
unfolding h2n_2
pointer_bytes t h =
    let high : ((0xC000 + t) / 256) % 256 ≡ 192 + t / 256 = omega arith in
    let low : (0xC000 + t) % 256 ≡ t % 256 = omega arith in rw (pointer_or t h, high, low) refl

-- A pointer to the name as it stands before the cursor.
pointed :
    (o : Output) (labels : List (List ℕ)) (t : ℕ)
    → All IsLabel labels
    → 0 < length (wire labels)
    → t + length (wire labels) < length o.written
    → length o.written ≤ 16384
    → At o.written t (wire labels ++ 0 ∷ [])
    → (r : List ℕ)
    → Encodes ((o.written ++ ((192 + t / 256) ∷ t % 256 ∷ [])) ++ r) (length o.written) labels 2
unfolding wire
pointed o labels t h nonempty settled small a r =
    let bytes = (192 + t / 256) ∷ t % 256 ∷ [] in
    let t' : t ≡ t / 256 * 256 + t % 256 = omega arith in
    let there : At ((o.written ++ bytes) ++ r) (t / 256 * 256 + t % 256) (wire labels ++ 0 ∷ []) =
      subst (λ k. At ((o.written ++ bytes) ++ r) k (wire labels ++ 0 ∷ [])) t'
        (At-more r (At-more bytes a)) in
    pointer (length o.written) [] labels (t / 256) (t % 256) (length (wire labels) + 1) tt h
      (omega arith) (omega arith) (omega arith)
      (rw (append_assoc o.written bytes r) (At-here o.written bytes r))
      (ended (t / 256 * 256 + t % 256) labels h there)

found :
    (o : Output) (labels : List (List ℕ)) (off : ℕ)
    → All IsLabel labels
    → 0 < length (wire labels)
    → 12 ≤ length o.written
    → length o.written ≤ 16384
    → length (wire labels) < length o.room
    → is_settled o (wire labels) ≡ true
    → find_previous_name o (wire labels) ≡ some (some off)
    → suffix_loop (suc (length (wire labels))) o (wire labels) 0 ≡ some (0, some off)
    → Written o labels
found o labels off h nonempty header small room settled e loop =
    let (before, there) = find_previous_name-finds o (wire labels) off header room e in
    let inside : 12 + off + length (wire labels) < length o.written =
      ground (arith, sym (ap (ends_before o (wire labels)) e) ∙ settled) in
    let t : off + 12 ≡ 12 + off = omega arith in
    let bytes : h2n_2 (bit_or (off + 12) 0xC000)
        ≡ (192 + (12 + off) / 256) ∷ (12 + off) % 256 ∷ [] =
      ap (λ n. h2n_2 (bit_or n 0xC000)) t ∙ pointer_bytes (12 + off) (omega arith) in
    record {
      bytes = (192 + (12 + off) / 256) ∷ (12 + off) % 256 ∷ [];
      result =
          serialize_found o (wire labels) off loop
          ∙ ap (put o) bytes
          ∙ put-after o ((192 + (12 + off) / 256) ∷ (12 + off) % 256 ∷ []) (omega arith);
      short = omega arith;
      reads =
          pointed o labels (12 + off) h nonempty inside small
            (At-within o.room there (omega (arith, inside, length-append (wire labels) (0 ∷ []))));
    }

first_label :
    (label : List ℕ) (labels : List (List ℕ))
    → get_elem? (wire (label ∷ labels) ++ 0 ∷ []) 0 ≡ some (length label)
unfolding wire
first_label label labels = refl

nonempty_wire : (label : List ℕ) (labels : List (List ℕ)) → 0 < length (wire (label ∷ labels))
unfolding wire
nonempty_wire label labels = omega arith

-- On a buffer of at most 16384 bytes up to the cursor, with a cursor past the header and room for a
-- name and its zero byte: name_serialize of a name whose search is settled writes at most that
-- many bytes, and in every memory that they and what was written before begin, they encode the
-- name.
pub name_serialize-Written :
    (o : Output) (labels : List (List ℕ))
    → All IsLabel labels
    → 12 ≤ length o.written
    → length o.written ≤ 16384
    → length (wire labels) < length o.room
    → is_settled o (wire labels) ≡ true
    → Written o labels
unfolding wire
name_serialize-Written o [] h header small room settled =
    whole o [] 0 h room (loop_end _ o _ 0 refl)
name_serialize-Written o (label ∷ labels) h header small room settled =
    let ls = label ∷ labels in
    let (r, e) = find_previous_name_decides o (wire ls) header room in
    elim r as (λ r. find_previous_name o (wire ls) ≡ some r → Written o ls) [
      | none ↦ λ e. whole o ls (0 + length (wire ls)) h room (
          suffix_loop-absent (suc (length (wire ls))) o (wire ls) 0 ls h (omega arith)
            (record {
              before = [];
              after = [];
              parts = sym (append-nil (wire ls ++ 0 ∷ []));
              place = refl;
            })
            e)
      | some off ↦ λ e. found o ls off h (nonempty_wire label labels) header small room settled e (
          loop_found (length (wire ls)) o (wire ls) 0 (length label) off (first_label label labels)
            (h.0.nonempty) e)
    ]
      e
