-- ===== src/Cache/Store.antt =====
-- sabnzbd/articlecache.py: the cache as what it promises: a store of data by article, in which data
-- stays until it is loaded or purged, or was written to the article's file.
pub mod Entries
pub mod Taking
pub mod Flushing
pub mod Refines
use sabnzbd.Prelude.{
  ℕ, ◌≡◌, refl, Bool, true, false, ◌⊎◌, inl, inr, ◌==◌, if◌then◌else◌, Option, none, some, List,
  contains, ℤ,
}
use sabnzbd.Prelude.Dict
use sabnzbd.Prelude.Dict.{Dict}
use sabnzbd.Cache.{
  Data, World, Cache, change_direct_write, new_limit, save_article, load_article, purge_articles,
  flush_cache, flush_articles,
}

abbrev pub Store : Type 0
Store = ℕ → Option Data

abbrev pub first_of {ℓ} : {A : Type ℓ} → Option A → Option A → Option A
first_of none o = o
first_of (some a) o = some a

-- What a cache holds: the data in memory, else that on disk.
abbrev pub contents : Cache → Store
contents c a = first_of (Dict.get a c.article_table) (Dict.get a c.disk)

pub data Op : Type 0 where
  save : ℕ → Data → Op
  load : ℕ → Op
  purge : List ℕ → Op
  limit : ℤ → Op
  direct : Bool → Op
  force flush : Op

-- The call, with the data that it returns.
unfoldable pub run : World → Op → Cache → Option Data × Cache
run w (save a bytes) c = (none, save_article w a bytes c)
run w (load a) c = load_article a c
run w (purge articles) c = (none, purge_articles articles c)
run w (limit n) c = (none, new_limit n c)
run w (direct b) c = (none, change_direct_write b c)
run w force c = (none, flush_cache w c)
run w flush c = (none, flush_articles w c)

-- The data went to the article's file.
abbrev pub Written : World → ℕ → Option Data → Type 0
Written w a none = ⊥
Written w a (some bytes) = w.assemble_article a bytes ≡ true

-- Data that was held still is, unless it went to its file.
abbrev pub IsKept : World → Store → Store → Type 0
IsKept w s t = (a : ℕ) → (t a ≡ s a) ⊎ ((t a ≡ none) × Written w a (s a))

-- An article is saved only while the store does not hold it.
abbrev pub Allowed : Op → Store → Type 0
Allowed (save a bytes) s = s a ≡ none
Allowed _ s = Unit

-- The contract of each operation, on the store before, the data returned and the store after.
abbrev pub Contract : World → Op → Store → Option Data → Store → Type 0
Contract w (save a bytes) s r t =
    ((b : ℕ) → t b ≡ (if a == b then some bytes else s b))
    ⊎ (((b : ℕ) → t b ≡ s b)
        × (((w.article a).pp_or_finished ≡ true) ⊎ (w.assemble_article a bytes ≡ true)))
Contract w (load a) s r t = (r ≡ s a) × ((b : ℕ) → t b ≡ (if a == b then none else s b))
Contract w (purge articles) s r t = (b : ℕ) → t b ≡ (if contains b articles then none else s b)
Contract w (limit n) s r t = (b : ℕ) → t b ≡ s b
Contract w (direct b) s r t = (a : ℕ) → t a ≡ s a
Contract w force s r t = (b : ℕ) → t b ≡ s b
Contract w flush s r t = IsKept w s t
