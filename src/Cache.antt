-- ===== src/Cache.antt =====
-- sabnzbd/articlecache.py: the article cache. An article is a reference, and its data is a list of
-- bytes. The files of cached articles on disk are a dict of their own, and a write to disk succeeds.
pub mod Accounting
pub mod RoundTrip
pub mod Flush
pub mod Tests
pub mod Stored
pub mod Reach
pub mod Store
use sabnzbd.Prelude.{
  ◌≡◌, ℕ, zero, suc, ◌+◌, ◌*◌, min, Bool, true, false, not, ◌&&◌, ◌||◌, ◌==◌, ltb, if◌then◌else◌,
  Option, none, some, List, [], ◌∷◌, ◌++◌, length, contains, remove_one, add_key, ℤ, pos, negsuc,
  ◌+ℤ◌, ◌-ℤ◌, ltb_ℤ, eqb_ℤ,
}
use sabnzbd.Prelude.Dict
use sabnzbd.Prelude.Dict.{Dict}

abbrev pub Data : Type 0
Data = List ℕ

-- What the cache reads of an article, its file and its job.
pub record Article : Type 0 where
  pub lowest_partnum : Bool
  pub import_finished : Bool
  pub filename_checked : Bool
  pub pp_or_finished : Bool
  pub can_direct_write : Bool
  pub nzf : ℕ

-- The articles, and whether `Assembler.assemble_article` writes the data to the article's file.
pub record World : Type 0 where
  pub article : ℕ → Article
  pub assemble_article : ℕ → Data → Bool
  pub no_active_jobs : Bool

-- `art_ids` are the articles that have a name for a file of the disk cache.
pub record Cache : Type 0 where
  pub shutdown : Bool
  pub direct_write : Bool
  pub cache_limit_org : ℤ
  pub cache_limit : ℕ
  pub cache_upper_limit : ℕ
  pub cache_size : ℤ
  pub article_table : Dict Data
  pub disk : Dict Data
  pub art_ids : List ℕ
  pub saved_articles : List ℕ
  -- The articles that the assembler was asked to write by a forced flush.
  pub requests : List ℕ

unfoldable pub change_direct_write : Bool → Cache → Cache
change_direct_write direct_write c = record c { direct_write = direct_write }

-- `new_limit`: a negative limit stands for the upper limit.
unfoldable pub new_limit : ℤ → Cache → Cache
new_limit limit c = record c {
  cache_limit_org = limit;
  cache_limit = elim limit [ pos n ↦ min n c.cache_upper_limit | negsuc _ ↦ c.cache_upper_limit ];
}

-- The size passes the trigger, nine tenths of the limit, of which both sides are taken ten times.
abbrev pub over_trigger : Cache → Bool
over_trigger c = ltb_ℤ (pos (9 * c.cache_limit)) (
    c.cache_size +ℤ c.cache_size +ℤ c.cache_size +ℤ c.cache_size +ℤ c.cache_size +ℤ c.cache_size
    +ℤ c.cache_size +ℤ c.cache_size +ℤ c.cache_size +ℤ c.cache_size)

unfoldable pub should_flush : World → Cache → Bool
unfolding ◌+ℤ◌
should_flush w c =
    c.direct_write
    && not (c.cache_limit == 0)
    && (over_trigger c || not (eqb_ℤ c.cache_size (pos 0)) && w.no_active_jobs)

-- The loop of `flush_cache` over a copy of the table: one request for each file.
unfoldable pub flush_files : World → List ℕ → Dict Data → Cache → Cache
flush_files w forced [] c = c
flush_files w forced ((a, _) ∷ rest) c =
    let skip = not (w.article a).can_direct_write || contains (w.article a).nzf forced in
    flush_files w (if skip then forced else (w.article a).nzf ∷ forced) rest
      (if skip then c else record c { requests = c.requests ++ a ∷ [] })

unfoldable pub flush_cache : World → Cache → Cache
unfolding flush_files
flush_cache w c = flush_files w [] c.article_table c

unfoldable pub reserve_space : ℕ → Cache → Bool × Cache
unfolding ◌+ℤ◌
reserve_space data_size c =
    let usage = c.cache_size +ℤ pos data_size in
    if ltb_ℤ (pos c.cache_limit) usage then (false, c) else (true, record c { cache_size = usage })

unfoldable pub free_reserved_space : ℕ → Cache → Cache
unfolding ◌-ℤ◌
free_reserved_space data_size c = record c { cache_size = c.cache_size -ℤ pos data_size }

unfoldable pub space_left : Cache → Bool
space_left c = ltb_ℤ c.cache_size (pos c.cache_limit)

-- nzo.saved_articles.add and .discard
abbrev pub register : ℕ → Cache → Cache
register a c = record c { saved_articles = add_key a c.saved_articles }

abbrev pub unregister : ℕ → Cache → Cache
unregister a c = record c { saved_articles = remove_one a c.saved_articles }

unfoldable pub flush_article_to_disk : World → ℕ → Data → Cache → Cache
flush_article_to_disk w a bytes c =
    if c.direct_write && w.assemble_article a bytes
    then unregister a c
    else record c { art_ids = add_key a c.art_ids; disk = Dict.put a bytes c.disk }

unfoldable pub cache_or_flush : World → ℕ → Data → Bool × Cache → Cache
unfolding flush_article_to_disk
cache_or_flush w a bytes (true, c) = record c { article_table = Dict.put a bytes c.article_table }
cache_or_flush w a bytes (false, c) = flush_article_to_disk w a bytes c

-- The first article of a file stays out of memory until the file's name is known.
abbrev pub is_early : Article → Bool
is_early x = x.lowest_partnum && not (x.import_finished || x.filename_checked)

unfoldable pub save_article : World → ℕ → Data → Cache → Cache
unfolding cache_or_flush reserve_space
save_article w a bytes c =
    if (w.article a).pp_or_finished
    then c
    else (let c' = register a c in
        if is_early (w.article a)
        then flush_article_to_disk w a bytes c'
        else cache_or_flush w a bytes
            (if c'.cache_limit == 0 then (false, c') else reserve_space (length bytes) c'))

-- `article_table.pop(article)` and the release of its space.
unfoldable pub pop_article : ℕ → Cache → Option Data × Cache
unfolding free_reserved_space
pop_article a c = elim (Dict.get a c.article_table) [
  | none ↦ (none, c)
  | some bytes ↦ (
    some bytes,
    free_reserved_space (length bytes) (record c { article_table = Dict.remove a c.article_table }),
  )
]

unfoldable pub load_article : ℕ → Cache → Option Data × Cache
unfolding pop_article
load_article a c =
    if Dict.has a c.article_table
    then (let (bytes, c') = pop_article a c in (bytes, unregister a c'))
    else if contains a c.art_ids
    then (Dict.get a c.disk, unregister a (record c { disk = Dict.remove a c.disk }))
    else (none, unregister a c)

-- A round of the `while` loop of `flush_articles`, at the item that `popitem` returns.
unfoldable pub flush_next :
    World → (Cache → Cache) → Cache → Option ((ℕ × Data) × Dict Data) → Cache
unfolding flush_article_to_disk
flush_next w next c none = c
flush_next w next c (some ((a, bytes), rest)) =
    next (flush_article_to_disk w a bytes (record c { article_table = rest }))

-- The loop, with a bound on its rounds.
unfoldable pub flush_loop : World → ℕ → Cache → Cache
unfolding flush_next
flush_loop w zero c = c
flush_loop w (suc n) c = flush_next w (λ c'. flush_loop w n c') c (Dict.pop_item c.article_table)

unfoldable pub flush_articles : World → Cache → Cache
unfolding flush_loop
flush_articles w c = flush_loop w (length c.article_table) (record c { cache_size = pos 0 })

unfoldable pub purge_article : ℕ → Cache → Cache
unfolding pop_article
purge_article a c =
    if Dict.has a c.article_table
    then (pop_article a c).1
    else if contains a c.art_ids
    then record c { disk = Dict.remove a c.disk }
    else c

unfoldable pub purge_articles : List ℕ → Cache → Cache
unfolding purge_article
purge_articles [] c = c
purge_articles (a ∷ rest) c = purge_articles rest (purge_article a c)

-- The size is that of the table, and what is on disk has a name.
pub record IsValid (c : Cache) : Type 0 where
  pub table : Dict.IsDict c.article_table
  pub files : Dict.IsDict c.disk
  pub named : (a : ℕ) → Dict.has a c.disk ≡ true → contains a c.art_ids ≡ true
  pub size : c.cache_size ≡ pos (Dict.total length c.article_table)
