-- ===== src/Cache/Store/Flushing.antt =====
-- sabnzbd/articlecache.py: `flush_articles` and `save_article` on the store.
use sabnzbd.Prelude.{
  ℕ, zero, suc, ◌≡◌, refl, ap, sym, subst, ◌∙◌, Bool, true, false, ◌||◌, ◌⊎◌, inl, inr, ◌==◌,
  if◌then◌else◌, if_ind, none, some, List, [], ◌∷◌, ◌++◌, length, contains, not, pos, ◌+ℤ◌, ltb_ℤ,
  arith, Bool-cases, ==_iff, ==_refl,
}
use sabnzbd.Prelude.Dict
use sabnzbd.Prelude.Dict.{Dict}
use sabnzbd.Cache.{
  Data, World, Cache, register, reserve_space, flush_article_to_disk, cache_or_flush, is_early,
  save_article, flush_next, flush_loop, flush_articles, flush_files,
}
use sabnzbd.Cache.Store.{Store, contents, Written, IsKept, Contract, save}
use sabnzbd.Cache.Store.Entries.{IsStore, in_memory-IsStore, on_disk-IsStore}

-- A store and what it holds of the data of another.
abbrev KeptIn : World → Cache → Cache → Type 0
KeptIn w c r = IsStore r × IsKept w (contents c) (contents r)

IsKept-trans : (w : World) (s t u : Store) → IsKept w s t → IsKept w t u → IsKept w s u
IsKept-trans w s t u h k a = join (h a) (k a)
  where
    join :
        ((t a ≡ s a) ⊎ ((t a ≡ none) × Written w a (s a)))
        → ((u a ≡ t a) ⊎ ((u a ≡ none) × Written w a (t a)))
        → (u a ≡ s a) ⊎ ((u a ≡ none) × Written w a (s a))
    join (inl e) (inl f) = inl (f ∙ e)
    join (inl e) (inr (f, x)) = inr (f, subst (λ o. Written w a o) e x)
    join (inr (e, x)) (inl f) = inr (f ∙ e, x)
    join (inr (e, x)) (inr (f, _)) = inr (f, x)

-- The item that was added last goes to disk or to its file.
module _ (w : World) (c : Cache) (b : ℕ) (v : Data) (rest : Dict Data) where
  abbrev popped : Cache
  popped = record c { article_table = rest }

  module _ (split : c.article_table ≡ rest ++ (b, v) ∷ []) (h : IsStore c) where
    absent : Dict.IsDict rest × (Dict.has b rest ≡ false)
    absent = Dict.snoc-IsDict b v rest (subst Dict.IsDict split h.table)

    popped-IsStore : IsStore popped
    popped-IsStore = record {
      table = absent.0;
      files = h.files;
      named = h.named;
      apart =
          λ a there. h.apart a (ap (Dict.has a) split ∙ more a (Dict.has-snoc a b v rest) there);
    }
      where
        more :
            (a : ℕ)
            → Dict.has a (rest ++ (b, v) ∷ []) ≡ (Dict.has a rest || (b == a))
            → Dict.has a rest ≡ true
            → Dict.has a (rest ++ (b, v) ∷ []) ≡ true
        more a e there = ground arith

    new : contents popped b ≡ none
    new = rw (Dict.get-absent b rest absent.1) (Dict.get-absent b c.disk (h.apart b here))
      where
        last : Dict.has b (rest ++ (b, v) ∷ []) ≡ true
        last = ground (arith, Dict.has-snoc b b v rest)

        here : Dict.has b c.article_table ≡ true
        here = ap (Dict.has b) split ∙ last

    was : (a : ℕ) → contents c a ≡ (if b == a then some v else contents popped a)
    was a = elim (Bool-cases (b == a)) [
      | inl e ↦ rw e (
          subst (λ i. contents c i ≡ some v) ((==_iff b a).0 e)
            (rw (ap (Dict.get b) split ∙ at_b) refl))
      | inr e ↦ rw e (rw (ap (Dict.get a) split ∙ elsewhere e) refl)
    ]
      where
        at_b : Dict.get b (rest ++ (b, v) ∷ []) ≡ some v
        at_b = ground (arith, Dict.get-snoc b b v rest, absent.1)

        elsewhere : (b == a) ≡ false → Dict.get a (rest ++ (b, v) ∷ []) ≡ Dict.get a rest
        elsewhere e = elim (Bool-cases (Dict.has a rest)) [
          | inl there ↦ ground (arith, Dict.get-snoc a b v rest)
          | inr out ↦ ground (arith, Dict.get-snoc a b v rest, Dict.get-absent a rest out)
        ]

    one-KeptIn : KeptIn w c (flush_article_to_disk w b v popped)
    one-KeptIn =
        let (valid, moved) = on_disk-IsStore w b v popped popped-IsStore new in
        (
          valid,
          elim moved [
            | inl same ↦ λ a. inl (same a ∙ sym (was a))
            | inr (gone, written) ↦ λ a. elim (Bool-cases (b == a)) [
              | inl e ↦ inr (
                gone a ∙ here a e,
                subst (λ i. Written w i (contents c i)) ((==_iff b a).0 e)
                    (subst (λ o. Written w b o) (sym (was b ∙ self)) written),
              )
              | inr e ↦ inl (gone a ∙ sym (was a ∙ other a e))
            ]
          ],
        )
      where
        self : (if b == b then some v else contents popped b) ≡ some v
        self = rw (==_refl b) refl

        here : (a : ℕ) → (b == a) ≡ true → contents popped a ≡ none
        here a e = subst (λ i. contents popped i ≡ none) ((==_iff b a).0 e) new

        other :
            (a : ℕ)
            → (b == a) ≡ false
            → (if b == a then some v else contents popped a) ≡ contents popped a
        other a e = rw e refl

flush_loop-KeptIn :
    (w : World) (n : ℕ) (t : Dict Data) (c : Cache)
    → c.article_table ≡ t
    → IsStore c
    → KeptIn w c (flush_loop w n c)
unfolding flush_loop
flush_loop-KeptIn w zero t c e h = (h, λ a. inl refl)
flush_loop-KeptIn w (suc n) [] c e h =
    subst (λ o. KeptIn w c (flush_next w (λ c'. flush_loop w n c') c o)) (sym (ap Dict.pop_item e))
      (h, λ a. inl refl)
flush_loop-KeptIn w (suc n) (x ∷ t) c e h =
    let ((b, v), rest, item, split, _) = Dict.pop_item-split x t in
    let c' = flush_article_to_disk w b v (record c { article_table = rest }) in
    let (valid, one) = one-KeptIn w c b v rest (e ∙ split) h in
    let (valid', more) = flush_loop-KeptIn w n c'.article_table c' refl valid in
    subst (λ o. KeptIn w c (flush_next w (λ c'. flush_loop w n c') c o))
      (sym (ap Dict.pop_item e ∙ item))
      (valid', IsKept-trans w (contents c) (contents c') (contents (flush_loop w n c')) one more)

pub flush_articles-KeptIn :
    (w : World) (c : Cache)
    → IsStore c
    → IsStore (flush_articles w c) × IsKept w (contents c) (contents (flush_articles w c))
unfolding flush_articles
flush_articles-KeptIn w c h =
    flush_loop-KeptIn w (length c.article_table) c.article_table (record c { cache_size = pos 0 })
      refl (record { table = h.table; files = h.files; named = h.named; apart = h.apart })

-- A forced flush changes neither table nor disk.
pub flush_files-contents :
    (w : World) (forced : List ℕ) (d : Dict Data) (c : Cache)
    → IsStore c
    → IsStore (flush_files w forced d c)
      × ((b : ℕ) → contents (flush_files w forced d c) b ≡ contents c b)
unfolding flush_files
flush_files-contents w forced [] c h = (h, λ b. refl)
flush_files-contents w forced ((a, _) ∷ rest) c h =
    let skip = not (w.article a).can_direct_write || contains (w.article a).nzf forced in
    let forced' = if skip then forced else (w.article a).nzf ∷ forced in
    if_ind
      (λ (r : Cache).
        IsStore (flush_files w forced' rest r)
        × ((b : ℕ) → contents (flush_files w forced' rest r) b ≡ contents c b))
      skip (λ _. flush_files-contents w forced' rest c h)
      (λ _.
        flush_files-contents w forced' rest (record c { requests = c.requests ++ a ∷ [] })
          (record { table = h.table; files = h.files; named = h.named; apart = h.apart }))

module _ (w : World) (a : ℕ) (bytes : Data) where
  abbrev Saved : Cache → Cache → Type 0
  Saved c r = IsStore r × Contract w (save a bytes) (contents c) none (contents r)

  abbrev reserved : Cache → Cache
  reserved c = record (register a c) { cache_size = c.cache_size +ℤ pos (length bytes) }

  pub save_article-Saved :
      (c : Cache) → IsStore c → contents c a ≡ none → Saved c (save_article w a bytes c)
  unfolding save_article cache_or_flush reserve_space
  save_article-Saved c h new =
      if_ind (Saved c) (w.article a).pp_or_finished (λ done. (h, inr (λ b. refl, inl done)))
        (λ _.
          if_ind (Saved c) (is_early (w.article a)) (λ _. on_disk)
            (λ _.
              if_ind (λ (r : Bool × Cache). Saved c (cache_or_flush w a bytes r))
                (c.cache_limit == 0) (λ _. on_disk)
                (λ _.
                  if_ind (λ (r : Bool × Cache). Saved c (cache_or_flush w a bytes r))
                    (ltb_ℤ (pos c.cache_limit) (c.cache_size +ℤ pos (length bytes))) (λ _. on_disk)
                    (λ _. in_memory))))
    where
      registered : IsStore (register a c)
      registered = record { table = h.table; files = h.files; named = h.named; apart = h.apart }

      on_disk : Saved c (flush_article_to_disk w a bytes (register a c))
      on_disk =
          let (valid, moved) = on_disk-IsStore w a bytes (register a c) registered new in
          (
            valid,
            elim moved [ inl same ↦ inl same | inr (gone, written) ↦ inr (gone, inr written) ],
          )

      in_memory : Saved c (record (reserved c) { article_table = Dict.put a bytes c.article_table })
      in_memory =
          let (valid, same) =
            in_memory-IsStore a bytes (reserved c)
              (record { table = h.table; files = h.files; named = h.named; apart = h.apart }) new in
          (valid, inl same)
