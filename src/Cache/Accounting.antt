-- ===== src/Cache/Accounting.antt =====
-- sabnzbd/articlecache.py: `cache_size` and the cached data, operation by operation.
use sabnzbd.Prelude.{
  ℕ, ◌+◌, ◌≡◌, ap, sym, subst, ◌∙◌, Bool, true, false, ◌&&◌, ◌||◌, ◌==◌, if_ind, Option, none, some,
  List, [], ◌∷◌, length, contains, pos, ◌+ℤ◌, ◌-ℤ◌, ◌≤ℤ◌, ltb_ℤ, arith, Bool-cases, inl, inr,
  contains-add_key, ==_iff,
}
use sabnzbd.Prelude.Dict
use sabnzbd.Prelude.Dict.{Dict}
use sabnzbd.Cache.{
  Data, World, Cache, IsValid, reserve_space, free_reserved_space, register, unregister,
  flush_article_to_disk, cache_or_flush, is_early, save_article, pop_article, load_article,
  purge_article, purge_articles,
}

-- Operations that leave the table, the size, the disk and the names alone keep validity.
flush_to_disk-IsValid :
    (w : World) (a : ℕ) (bytes : Data) (c : Cache)
    → IsValid c
    → IsValid (flush_article_to_disk w a bytes c)
unfolding flush_article_to_disk
flush_to_disk-IsValid w a bytes c v =
    if_ind IsValid (c.direct_write && w.assemble_article a bytes)
      (λ _. record { table = v.table; files = v.files; named = v.named; size = v.size })
      (λ _. record {
        table = v.table;
        files = Dict.put-IsDict a bytes c.disk v.files;
        named = λ b h.
            contains-add_key b a c.art_ids ∙ either b (sym (Dict.has-put a b bytes c.disk) ∙ h);
        size = v.size;
      })
  where
    either :
        (b : ℕ) → ((a == b) || Dict.has b c.disk) ≡ true → ((a == b) || contains b c.art_ids) ≡ true
    either b h = ground (arith, v.named b)

module _ (w : World) (a : ℕ) (bytes : Data) where
  put-IsValid :
      (c : Cache)
      → Dict.has a c.article_table ≡ false
      → IsValid c
      → IsValid (cache_or_flush w a bytes (reserve_space (length bytes) c))
  unfolding cache_or_flush reserve_space
  put-IsValid c new v =
      if_ind (λ (r : Bool × Cache). IsValid (cache_or_flush w a bytes r))
        (ltb_ℤ (pos c.cache_limit) (c.cache_size +ℤ pos (length bytes)))
        (λ _. flush_to_disk-IsValid w a bytes c v)
        (λ _. record {
          table = Dict.put-IsDict a bytes c.article_table v.table;
          files = v.files;
          named = v.named;
          size = ap (λ z. z +ℤ pos (length bytes)) v.size ∙ grown;
        })
    where
      grown :
          pos (Dict.total length c.article_table) +ℤ pos (length bytes)
          ≡ pos (Dict.total length (Dict.put a bytes c.article_table))
      grown = ground (arith, Dict.total-put length a bytes c.article_table new)

  -- Saving an article that is not cached yet keeps the cache valid.
  pub save_article-IsValid :
      (c : Cache)
      → Dict.has a c.article_table ≡ false
      → IsValid c
      → IsValid (save_article w a bytes c)
  unfolding save_article
  save_article-IsValid c new v =
      if_ind IsValid (w.article a).pp_or_finished (λ _. v)
        (λ _.
          if_ind IsValid (is_early (w.article a))
            (λ _. flush_to_disk-IsValid w a bytes (register a c) registered)
            (λ _.
              if_ind (λ (r : Bool × Cache). IsValid (cache_or_flush w a bytes r))
                (c.cache_limit == 0)
                (λ _. flush_to_disk-IsValid w a bytes (register a c) registered)
                (λ _. put-IsValid (register a c) new registered)))
    where
      registered : IsValid (register a c)
      registered = record { table = v.table; files = v.files; named = v.named; size = v.size }

pop-IsValid :
    (a : ℕ) (c : Cache)
    → Dict.has a c.article_table ≡ true
    → IsValid c
    → IsValid (pop_article a c).1
unfolding pop_article free_reserved_space
pop-IsValid a c there v =
    let (bytes, found, sum) = Dict.total-remove length a c.article_table there in
    subst
      (λ o.
        IsValid
          (elim o as (λ _. Option Data × Cache) [
            | none ↦ (none, c)
            | some d ↦ (
              some d,
              free_reserved_space (length d)
                  (record c { article_table = Dict.remove a c.article_table }),
            )
          ]).1)
      (sym found)
      (record {
        table = Dict.remove-IsDict a c.article_table v.table;
        files = v.files;
        named = v.named;
        size = ap (λ z. z -ℤ pos (length bytes)) v.size ∙ shrunk bytes sum;
      })
  where
    shrunk :
        (d : Data)
        → Dict.total length (Dict.remove a c.article_table) + length d
          ≡ Dict.total length c.article_table
        → pos (Dict.total length c.article_table) -ℤ pos (length d)
          ≡ pos (Dict.total length (Dict.remove a c.article_table))
    shrunk d sum = ground arith

unlisted-IsValid : (a : ℕ) (c : Cache) → IsValid c → IsValid (unregister a c)
unlisted-IsValid a c v = record { table = v.table; files = v.files; named = v.named; size = v.size }

erased-IsValid :
    (a : ℕ) (c : Cache) → IsValid c → IsValid (record c { disk = Dict.remove a c.disk })
erased-IsValid a c v = record {
  table = v.table;
  files = Dict.remove-IsDict a c.disk v.files;
  named = λ b h. elim (Bool-cases (a == b)) [
    | inl e ↦ absurd (gone b e h)
    | inr e ↦ v.named b (sym (Dict.has-remove_ne a b c.disk e) ∙ h)
  ];
  size = v.size;
}
  where
    both : {b : Bool} → b ≡ true → b ≡ false → ⊥
    both p n = cc

    gone : (b : ℕ) → (a == b) ≡ true → Dict.has b (Dict.remove a c.disk) ≡ true → ⊥
    gone b e h = both h (
        subst (λ i. Dict.has i (Dict.remove a c.disk) ≡ false) ((==_iff a b).0 e)
          (Dict.has-remove_self a c.disk v.files))

-- Loading an article, from memory, from disk or not at all, keeps the cache valid.
pub load_article-IsValid : (a : ℕ) (c : Cache) → IsValid c → IsValid (load_article a c).1
unfolding load_article
load_article-IsValid a c v =
    if_ind (λ (r : Option Data × Cache). IsValid r.1) (Dict.has a c.article_table)
      (λ there. unlisted-IsValid a (pop_article a c).1 (pop-IsValid a c there v))
      (λ _.
        if_ind (λ (r : Option Data × Cache). IsValid r.1) (contains a c.art_ids)
          (λ _.
            unlisted-IsValid a (record c { disk = Dict.remove a c.disk }) (erased-IsValid a c v))
          (λ _. unlisted-IsValid a c v))

pub purge_article-IsValid : (a : ℕ) (c : Cache) → IsValid c → IsValid (purge_article a c)
unfolding purge_article
purge_article-IsValid a c v =
    if_ind IsValid (Dict.has a c.article_table) (λ there. pop-IsValid a c there v)
      (λ _. if_ind IsValid (contains a c.art_ids) (λ _. erased-IsValid a c v) (λ _. v))

-- Purging the articles of a job keeps the cache valid.
pub purge_articles-IsValid :
    (articles : List ℕ) (c : Cache) → IsValid c → IsValid (purge_articles articles c)
unfolding purge_articles
purge_articles-IsValid [] c v = v
purge_articles-IsValid (a ∷ rest) c v =
    purge_articles-IsValid rest (purge_article a c) (purge_article-IsValid a c v)

-- A cache whose size is at most its limit has a size of at most its limit after an article is saved.
pub save_article-le_limit :
    (w : World) (a : ℕ) (bytes : Data) (c : Cache)
    → c.cache_size ≤ℤ pos c.cache_limit
    → (save_article w a bytes c).cache_size ≤ℤ pos (save_article w a bytes c).cache_limit
unfolding save_article cache_or_flush flush_article_to_disk reserve_space ◌+ℤ◌
save_article-le_limit w a bytes c h = ground arith
