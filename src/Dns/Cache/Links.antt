-- ===== src/Dns/Cache/Links.antt =====
-- The links of the cache entries, as each operation on the list writes them.
use dns_relay.Base.{
  ℕ, ◌≡◌, ◌≢◌, inl, inr, refl, false, arith, ◌==◌, if◌then◌else◌, Bool-cases, ◌||◌, ◌∙◌, subst, sym,
}
use dns_relay.Dns.Cache.{CacheEntry, head, set_hotter, set_colder, lru_remove, lru_insert}

-- The data of an entry, which the operations on links leave alone.
pub record IsSame (a b : CacheEntry) : Type 0 where
  pub key : a.key ≡ b.key
  pub value : a.value ≡ b.value
  pub created_at : a.created_at ≡ b.created_at

-- Each write of a link is read at its own address alone.
set_hotter-hotter :
    (m : ℕ → CacheEntry) (e p a : ℕ)
    → (set_hotter m e p a).hotter ≡ (if e == a then p else (m a).hotter)
unfolding set_hotter
set_hotter-hotter m e p a = ground arith

set_hotter-colder : (m : ℕ → CacheEntry) (e p a : ℕ) → (set_hotter m e p a).colder ≡ (m a).colder
unfolding set_hotter
set_hotter-colder m e p a = ground arith

set_colder-hotter : (m : ℕ → CacheEntry) (e p a : ℕ) → (set_colder m e p a).hotter ≡ (m a).hotter
unfolding set_colder
set_colder-hotter m e p a = ground arith

set_colder-colder :
    (m : ℕ → CacheEntry) (e p a : ℕ)
    → (set_colder m e p a).colder ≡ (if e == a then p else (m a).colder)
unfolding set_colder
set_colder-colder m e p a = ground arith

set_hotter-IsSame : (m : ℕ → CacheEntry) (e p a : ℕ) → IsSame (set_hotter m e p a) (m a)
unfolding set_hotter
set_hotter-IsSame m e p a = record {
  key = ground arith;
  value = ground arith;
  created_at = ground arith;
}

set_colder-IsSame : (m : ℕ → CacheEntry) (e p a : ℕ) → IsSame (set_colder m e p a) (m a)
unfolding set_colder
set_colder-IsSame m e p a = record {
  key = ground arith;
  value = ground arith;
  created_at = ground arith;
}

-- The links after `lru_remove` of an entry between `h` and `c`.
module _ (m : ℕ → CacheEntry) (e h c : ℕ) (eh : (m e).hotter ≡ h) (ec : (m e).colder ≡ c)
    (h0 : h ≢ 0) (c0 : c ≢ 0) (he : h ≢ e) where
  written : ℕ → CacheEntry
  written = set_colder (set_hotter (set_hotter (set_colder m h c) c h) e 0) e 0

  lru_remove_lem : lru_remove m e ≡ written
  unfolding lru_remove written
  lru_remove_lem =
      let g1 : (h == 0) ≡ false = ground arith in
      let g2 : (c == 0) ≡ false = ground arith in
      let m1 = set_colder m h c in
      let f1 : (m1 e).colder ≡ c = ground (arith, set_colder-colder m h c e) in
      let f2 : (m1 e).hotter ≡ h = ground (arith, set_colder-hotter m h c e) in
      simp (eh, ec, g1, g2, f1, f2)

  pub lru_remove-colder :
      (a : ℕ)
      → (lru_remove m e a).colder ≡ (if e == a then 0 else if h == a then c else (m a).colder)
  unfolding written
  lru_remove-colder a =
      let m1 = set_colder m h c in
      let m2 = set_hotter m1 c h in
      let m3 = set_hotter m2 e 0 in
      rw lru_remove_lem (
        ground (
          arith,
          set_colder-colder m3 e 0 a,
          set_hotter-colder m2 e 0 a,
          set_hotter-colder m1 c h a,
          set_colder-colder m h c a,
        ))

  pub lru_remove-hotter :
      (a : ℕ)
      → (lru_remove m e a).hotter ≡ (if e == a then 0 else if c == a then h else (m a).hotter)
  unfolding written
  lru_remove-hotter a =
      let m1 = set_colder m h c in
      let m2 = set_hotter m1 c h in
      let m3 = set_hotter m2 e 0 in
      rw lru_remove_lem (
        ground (
          arith,
          set_colder-hotter m3 e 0 a,
          set_hotter-hotter m2 e 0 a,
          set_hotter-hotter m1 c h a,
          set_colder-hotter m h c a,
        ))

-- The links after `lru_insert`, where `f` was the first entry.
module _ (m : ℕ → CacheEntry) (e f : ℕ) (hf : (m head).colder ≡ f) (e1 : e ≢ head) where
  linked : ℕ → CacheEntry
  linked = set_colder (set_hotter (set_hotter (set_colder m e f) e head) f e) head e

  lru_insert_lem : lru_insert m e ≡ linked
  unfolding lru_insert linked
  lru_insert_lem =
      let m1 = set_colder m e f in
      let m2 = set_hotter m1 e head in
      let f1 : (m2 head).colder ≡ f =
        ground (arith, set_hotter-colder m1 e head head, set_colder-colder m e f head) in
      simp (hf, f1)

  pub lru_insert-colder :
      (a : ℕ)
      → (lru_insert m e a).colder ≡ (if head == a then e else if e == a then f else (m a).colder)
  unfolding linked
  lru_insert-colder a =
      let m1 = set_colder m e f in
      let m2 = set_hotter m1 e head in
      let m3 = set_hotter m2 f e in
      rw lru_insert_lem (
        ground (
          arith,
          set_colder-colder m3 head e a,
          set_hotter-colder m2 f e a,
          set_hotter-colder m1 e head a,
          set_colder-colder m e f a,
        ))

  pub lru_insert-hotter :
      (a : ℕ)
      → (lru_insert m e a).hotter ≡ (if f == a then e else if e == a then head else (m a).hotter)
  unfolding linked
  lru_insert-hotter a =
      let m1 = set_colder m e f in
      let m2 = set_hotter m1 e head in
      let m3 = set_hotter m2 f e in
      rw lru_insert_lem (
        ground (
          arith,
          set_colder-hotter m3 head e a,
          set_hotter-hotter m2 f e a,
          set_hotter-hotter m1 e head a,
          set_colder-hotter m e f a,
        ))

pub IsSame-then : {a b c : CacheEntry} → IsSame a b → IsSame b c → IsSame a c
IsSame-then p q = record {
  key = p.key ∙ q.key;
  value = p.value ∙ q.value;
  created_at = p.created_at ∙ q.created_at;
}

pub lru_remove-IsSame : (m : ℕ → CacheEntry) (e a : ℕ) → IsSame (lru_remove m e a) (m a)
unfolding lru_remove
lru_remove-IsSame m e a = elim (Bool-cases ((m e).hotter == 0 || (m e).colder == 0)) [
  | inl apart ↦ rw apart (record { key = refl; value = refl; created_at = refl })
  | inr between ↦
      let m1 = set_colder m (m e).hotter (m e).colder in
      let m2 = set_hotter m1 (m1 e).colder (m1 e).hotter in
      let m3 = set_hotter m2 e 0 in
      subst (λ t. IsSame ((if t then m else set_colder m3 e 0) a) (m a)) (sym between)
        (IsSame-then (set_colder-IsSame m3 e 0 a) (
          IsSame-then (set_hotter-IsSame m2 e 0 a) (
            IsSame-then (set_hotter-IsSame m1 (m1 e).colder (m1 e).hotter a)
              (set_colder-IsSame m (m e).hotter (m e).colder a))))
]

pub lru_insert-IsSame : (m : ℕ → CacheEntry) (e a : ℕ) → IsSame (lru_insert m e a) (m a)
unfolding lru_insert
lru_insert-IsSame m e a =
    let m1 = set_colder m e (m head).colder in
    let m2 = set_hotter m1 e head in
    let m3 = set_hotter m2 (m2 head).colder e in
    IsSame-then (set_colder-IsSame m3 head e a) (
      IsSame-then (set_hotter-IsSame m2 (m2 head).colder e a)
        (IsSame-then (set_hotter-IsSame m1 e head a) (set_colder-IsSame m e (m head).colder a)))
