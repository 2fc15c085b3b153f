-- ===== src/Cache/RoundTrip.antt =====
-- sabnzbd/articlecache.py: `save_article` followed by `load_article`.
use sabnzbd.Prelude.{
  ℕ, ◌≡◌, ◌∙◌, Bool, true, false, ◌&&◌, ◌||◌, ◌==◌, if_ind, Option, some, length, contains, pos,
  ◌+ℤ◌, ltb_ℤ, arith, contains-add_key, ==_refl,
}
use sabnzbd.Prelude.Dict
use sabnzbd.Prelude.Dict.{Dict}
use sabnzbd.Cache.{
  Data, World, Cache, register, reserve_space, flush_article_to_disk, cache_or_flush, is_early,
  save_article, pop_article, load_article,
}

-- The article is in memory, or on disk only.
pub data Holds (a : ℕ) (bytes : Data) (c : Cache) : Type 0 where
  in_memory :
      Dict.get a c.article_table ≡ some bytes → Dict.has a c.article_table ≡ true → Holds a bytes c
  on_disk :
      Dict.has a c.article_table ≡ false
      → contains a c.art_ids ≡ true
      → Dict.get a c.disk ≡ some bytes
      → Holds a bytes c

load-Holds :
    (a : ℕ) (bytes : Data) (c : Cache) → Holds a bytes c → (load_article a c).0 ≡ some bytes
unfolding load_article
load-Holds a bytes c (in_memory found there) =
    if_ind (λ (r : Option Data × Cache). r.0 ≡ some bytes) (Dict.has a c.article_table)
      (λ _. popped) (λ absent. absurd (both there absent))
  where
    both : {b : Bool} → b ≡ true → b ≡ false → ⊥
    both p n = cc

    popped : (pop_article a c).0 ≡ some bytes
    popped = ground (arith, found)
load-Holds a bytes c (on_disk absent named found) =
    if_ind (λ (r : Option Data × Cache). r.0 ≡ some bytes) (Dict.has a c.article_table)
      (λ there. absurd (both there absent))
      (λ _.
        if_ind (λ (r : Option Data × Cache). r.0 ≡ some bytes) (contains a c.art_ids) (λ _. found)
          (λ unnamed. absurd (both named unnamed)))
  where
    both : {b : Bool} → b ≡ true → b ≡ false → ⊥
    both p n = cc

flush_to_disk-Holds :
    (w : World) (a : ℕ) (bytes : Data) (c : Cache)
    → Dict.has a c.article_table ≡ false
    → (c.direct_write && w.assemble_article a bytes) ≡ false
    → Holds a bytes (flush_article_to_disk w a bytes c)
unfolding flush_article_to_disk
flush_to_disk-Holds w a bytes c absent kept =
    if_ind (Holds a bytes) (c.direct_write && w.assemble_article a bytes)
      (λ direct. absurd (both direct kept))
      (λ _.
        on_disk absent (contains-add_key a a c.art_ids ∙ named) (Dict.get-put_self a bytes c.disk))
  where
    both : {b : Bool} → b ≡ true → b ≡ false → ⊥
    both p n = cc

    named : ((a == a) || contains a c.art_ids) ≡ true
    named = ground (arith, ==_refl a)

save-Holds :
    (w : World) (a : ℕ) (bytes : Data) (c : Cache)
    → Dict.has a c.article_table ≡ false
    → (w.article a).pp_or_finished ≡ false
    → (c.direct_write && w.assemble_article a bytes) ≡ false
    → Holds a bytes (save_article w a bytes c)
unfolding save_article
save-Holds w a bytes c absent active kept =
    if_ind (Holds a bytes) (w.article a).pp_or_finished (λ done. absurd (both done active))
      (λ _.
        if_ind (Holds a bytes) (is_early (w.article a)) (λ _. flushed)
          (λ _.
            if_ind (λ (r : Bool × Cache). Holds a bytes (cache_or_flush w a bytes r))
              (c.cache_limit == 0) (λ _. flushed) (λ _. reserved)))
  where
    both : {b : Bool} → b ≡ true → b ≡ false → ⊥
    both p n = cc

    flushed : Holds a bytes (flush_article_to_disk w a bytes (register a c))
    flushed = flush_to_disk-Holds w a bytes (register a c) absent kept

    reserved :
        Holds a bytes (cache_or_flush w a bytes (reserve_space (length bytes) (register a c)))
    reserved =
        unfold reserve_space in
        if_ind (λ (r : Bool × Cache). Holds a bytes (cache_or_flush w a bytes r))
          (ltb_ℤ (pos c.cache_limit) (c.cache_size +ℤ pos (length bytes))) (λ _. flushed)
          (λ _. in_memory (Dict.get-put_self a bytes c.article_table) there)
      where
        there : Dict.has a (Dict.put a bytes c.article_table) ≡ true
        there = Dict.has-put a a bytes c.article_table ∙ self
          where
            self : ((a == a) || Dict.has a c.article_table) ≡ true
            self = ground (arith, ==_refl a)

-- The data of a saved article is what the next load of it returns, wherever it was kept: the article
-- was not cached yet, its job is not done, and the data was not written to the file directly.
pub load-save :
    (w : World) (a : ℕ) (bytes : Data) (c : Cache)
    → Dict.has a c.article_table ≡ false
    → (w.article a).pp_or_finished ≡ false
    → (c.direct_write && w.assemble_article a bytes) ≡ false
    → (load_article a (save_article w a bytes c)).0 ≡ some bytes
load-save w a bytes c absent active kept =
    load-Holds a bytes (save_article w a bytes c) (save-Holds w a bytes c absent active kept)
