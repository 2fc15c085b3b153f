-- ===== src/Cache/Flush.antt =====
-- sabnzbd/articlecache.py: the cache and the disk after `flush_articles`.
use sabnzbd.Prelude.{
  ℕ, zero, suc, ◌≤◌, ◌≡◌, refl, ap, sym, subst, ◌∙◌, Bool, true, false, ◌&&◌, ◌⊎◌, inl, inr, ◌==◌,
  if_ind, some, [], ◌∷◌, ◌++◌, length, pos, arith, Bool-cases, or_false,
}
use sabnzbd.Prelude.Dict
use sabnzbd.Prelude.Dict.{Dict}
use sabnzbd.Cache.{
  Data, World, Cache, flush_article_to_disk, flush_next, flush_loop, flush_articles,
}

-- The data is in the article's file, or in its file of the disk cache.
abbrev pub Kept : World → Bool → ℕ → Data → Cache → Type 0
Kept w direct a bytes c =
    ((direct && w.assemble_article a bytes) ≡ true) ⊎ (Dict.get a c.disk ≡ some bytes)

Kept-flush :
    (w : World) (a : ℕ) (bytes : Data) (c : Cache)
    → Kept w c.direct_write a bytes (flush_article_to_disk w a bytes c)
unfolding flush_article_to_disk
Kept-flush w a bytes c = elim (Bool-cases (c.direct_write && w.assemble_article a bytes)) [
  | inl direct ↦ inl direct
  | inr other ↦ inr (rw other (Dict.get-put_self a bytes c.disk))
]

-- What a flush to disk leaves alone.
record Same (c r : Cache) : Type 0 where
  direct : r.direct_write ≡ c.direct_write
  table : r.article_table ≡ c.article_table
  size : r.cache_size ≡ c.cache_size

Same-flush :
    (w : World) (a : ℕ) (bytes : Data) (c : Cache) → Same c (flush_article_to_disk w a bytes c)
unfolding flush_article_to_disk
Same-flush w a bytes c =
    if_ind (Same c) (c.direct_write && w.assemble_article a bytes)
      (λ _. record { direct = refl; table = refl; size = refl })
      (λ _. record { direct = refl; table = refl; size = refl })

disk-flush_other :
    (w : World) (a b : ℕ) (bytes : Data) (c : Cache)
    → (b == a) ≡ false
    → Dict.get a (flush_article_to_disk w b bytes c).disk ≡ Dict.get a c.disk
unfolding flush_article_to_disk
disk-flush_other w a b bytes c ne =
    if_ind (λ (r : Cache). Dict.get a r.disk ≡ Dict.get a c.disk)
      (c.direct_write && w.assemble_article b bytes) (λ _. refl)
      (λ _. Dict.get-put_ne b a bytes c.disk ne)

-- The memory is empty, and all that the table `t` held is kept.
pub record Flushed (w : World) (t : Dict Data) (c r : Cache) : Type 0 where
  pub empty : r.article_table ≡ []
  pub size : r.cache_size ≡ c.cache_size
  pub kept : (a : ℕ) (bytes : Data) → Dict.get a t ≡ some bytes → Kept w c.direct_write a bytes r
  pub others : (a : ℕ) → Dict.has a t ≡ false → Dict.get a r.disk ≡ Dict.get a c.disk

no_entries : {w : World} {c : Cache} → c.article_table ≡ [] → Flushed w [] c c
no_entries e = record {
  empty = e;
  size = refl;
  kept = λ a bytes h. absurd (cc);
  others = λ a h. refl;
}

Kept-disk :
    (w : World) (direct direct' : Bool) (a : ℕ) (bytes : Data) (c r : Cache)
    → direct ≡ direct'
    → Dict.get a r.disk ≡ Dict.get a c.disk
    → Kept w direct a bytes c
    → Kept w direct' a bytes r
Kept-disk w direct direct' a bytes c r e same (inl h) =
    inl (subst (λ b. (b && w.assemble_article a bytes) ≡ true) e h)
Kept-disk w direct direct' a bytes c r e same (inr h) = inr (same ∙ h)

module _ (w : World) (next : Cache → Cache) (c : Cache) (b : ℕ) (v : Data) (rest : Dict Data) where
  abbrev popped : Cache
  popped = record c { article_table = rest }

  flushed_one : Cache
  flushed_one = flush_article_to_disk w b v popped

  step-Flushed :
      Dict.IsDict (rest ++ (b, v) ∷ [])
      → Flushed w rest flushed_one (next flushed_one)
      → Flushed w (rest ++ (b, v) ∷ []) c (next flushed_one)
  unfolding flushed_one
  step-Flushed d f =
      let absent = (Dict.snoc-IsDict b v rest d).1 in
      let same = Same-flush w b v popped in
      record {
        empty = f.empty;
        size = f.size ∙ same.size;
        kept = λ a bytes h. elim (Bool-cases (Dict.has a rest)) [
          | inl there ↦
              Kept-disk w flushed_one.direct_write c.direct_write a bytes (next flushed_one)
                (next flushed_one) same.direct refl (f.kept a bytes (in_rest a bytes h there))
          | inr out ↦
              let (own, value) = at_end a bytes h out in
              subst (λ i. Kept w c.direct_write i bytes (next flushed_one)) own
                (subst (λ x. Kept w c.direct_write b x (next flushed_one)) value
                  (Kept-disk w c.direct_write c.direct_write b v flushed_one (next flushed_one) refl
                    (f.others b absent) (Kept-flush w b v popped)))
        ];
        others = λ a h.
            let (out, ne) =
              or_false (Dict.has a rest) (b == a) (sym (Dict.has-snoc a b v rest) ∙ h) in
            f.others a out ∙ disk-flush_other w a b v popped ne;
      }
    where
      in_rest :
          (a : ℕ) (bytes : Data)
          → Dict.get a (rest ++ (b, v) ∷ []) ≡ some bytes
          → Dict.has a rest ≡ true
          → Dict.get a rest ≡ some bytes
      in_rest a bytes h there = ground (arith, Dict.get-snoc a b v rest)

      at_end :
          (a : ℕ) (bytes : Data)
          → Dict.get a (rest ++ (b, v) ∷ []) ≡ some bytes
          → Dict.has a rest ≡ false
          → (b ≡ a) × (v ≡ bytes)
      at_end a bytes h out = ground (arith, Dict.get-snoc a b v rest)

flush_loop-Flushed :
    (w : World) (n : ℕ) (t : Dict Data) (c : Cache)
    → c.article_table ≡ t
    → Dict.IsDict t
    → length t ≤ n
    → Flushed w t c (flush_loop w n c)
unfolding flush_loop flushed_one
flush_loop-Flushed w zero [] c e d h = no_entries e
flush_loop-Flushed w zero (x ∷ t) c e d h = absurd (omega arith)
flush_loop-Flushed w (suc n) [] c e d h =
    subst (λ o. Flushed w [] c (flush_next w (λ c'. flush_loop w n c') c o))
      (sym (ap Dict.pop_item e)) (no_entries e)
flush_loop-Flushed w (suc n) (x ∷ t) c e d h =
    let ((b, v), rest, item, split, size) = Dict.pop_item-split x t in
    let d' = subst Dict.IsDict split d in
    let one = flushed_one w (λ c'. flush_loop w n c') c b v rest in
    subst (λ o. Flushed w (x ∷ t) c (flush_next w (λ c'. flush_loop w n c') c o))
      (sym (ap Dict.pop_item e ∙ item))
      (subst (λ l. Flushed w l c (flush_loop w n one)) (sym split)
        (step-Flushed w (λ c'. flush_loop w n c') c b v rest d'
          (flush_loop-Flushed w n rest one
            (Same-flush w b v (record c { article_table = rest })).table
            (Dict.snoc-IsDict b v rest d').0 (omega (arith, size)))))

-- Flushing a cache whose table has no repeated keys leaves nothing in memory and counts no bytes,
-- and all data that was in memory is in the article's file or on disk.
pub flush_articles-Flushed :
    (w : World) (c : Cache)
    → Dict.IsDict c.article_table
    → Flushed w c.article_table (record c { cache_size = pos 0 }) (flush_articles w c)
unfolding flush_articles
flush_articles-Flushed w c d =
    flush_loop-Flushed w (length c.article_table) c.article_table (record c { cache_size = pos 0 })
      refl d (omega arith)
