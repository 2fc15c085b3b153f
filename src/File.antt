-- ===== src/File.antt =====
-- sabnzbd/nzb/file.py: a file of a job (NzbFile), with its articles. An article is a reference, and
-- `store` holds the article objects; `articles` are those that are still to be fetched.
pub mod Bytes
pub mod Import
pub mod Fetch
pub mod Tests
use sabnzbd.Prelude.{
  ℕ, zero, suc, ◌+◌, Bool, true, false, not, ◌&&◌, ◌||◌, ◌==◌, ltb, leb, if◌then◌else◌, Option,
  none, some, List, [], ◌∷◌, ◌++◌, length, get_elem?, take, drop, contains, remove_one, add_key, ℤ,
  pos, ◌-ℤ◌,
}
use sabnzbd.Article
use sabnzbd.Article.{Server, Article, add_to_try_list, reset_try_list, get_article}

-- The entries of the admin file: for each article its reference and its size.
abbrev pub RawArticles : Type 0
RawArticles = List (ℕ × ℕ)

pub record NzbFile : Type 0 where
  pub articles : List ℕ
  pub decodetable : List ℕ
  pub store : ℕ → Article
  pub bytes : ℕ
  pub bytes_left : ℤ
  pub try_list : List ℕ
  pub import_finished : Bool
  pub deleted : Bool
  pub is_par2 : Bool
  pub setname : Option ℕ
  pub vol : Option ℕ
  pub blocks : Option ℕ
  pub crc32 : Option ℕ
  pub assembler_next_index : ℕ

abbrev pub set_article : ℕ → Article → NzbFile → NzbFile
set_article id a f = record f { store = λ i. if i == id then a else f.store i }

-- Article.__init__
abbrev pub new_article : ℕ → Article
new_article size = record {
  bytes = size;
  lowest_partnum = false;
  try_list = [];
  fetcher = none;
  fetcher_priority = 0;
  tries = 0;
  decoded = false;
  on_disk = false;
  data_begin = 0;
  data_size = none;
  decoded_size = none;
}

unfoldable pub add_article : ℕ × ℕ → NzbFile → NzbFile
add_article (id, size) f =
    set_article id (new_article size)
      (record f { articles = add_key id f.articles; decodetable = f.decodetable ++ id ∷ [] })

unfoldable pub add_articles : RawArticles → NzbFile → NzbFile
unfolding add_article
add_articles [] f = f
add_articles (raw ∷ rest) f = add_articles rest (add_article raw f)

-- The first article of the file is known once all are there.
abbrev pub mark_lowest : NzbFile → NzbFile
mark_lowest f = elim f.decodetable [
  | [] ↦ f
  | first ∷ _ ↦ set_article first (record (f.store first) { lowest_partnum = true }) f
]

-- `load_data` gives the entries, none if the file cannot be read.
unfoldable pub finish_import : RawArticles → NzbFile → NzbFile
unfolding add_articles
finish_import [] f = f
finish_import (raw ∷ rest) f = record (mark_lowest (add_articles (raw ∷ rest) f)) {
  import_finished = true;
}

-- The number of articles left, and the file.
unfoldable pub remove_article : ℕ → Bool → NzbFile → ℕ × NzbFile
unfolding ◌-ℤ◌
remove_article id success f =
    if contains id f.articles
    then (let articles = remove_one id f.articles in
        (
          length articles,
          record f {
            articles = articles;
            bytes_left = if success then f.bytes_left -ℤ pos (f.store id).bytes else f.bytes_left;
          },
        ))
    else (length f.articles, f)

unfoldable pub set_par2 : ℕ → Option ℕ → ℕ → NzbFile → NzbFile
set_par2 setname vol blocks f = record f {
  is_par2 = true;
  setname = some setname;
  vol = vol;
  blocks = some blocks;
}

-- `combine` is `sabctools.crc32_combine`. No checksum is known any more once one was missing.
unfoldable pub update_crc32 : (ℕ → ℕ → ℕ → ℕ) → Option ℕ → ℕ → NzbFile → NzbFile
update_crc32 combine none size f = record f { crc32 = none }
update_crc32 combine (some c) size f = record f {
  crc32 = elim f.crc32 [ none ↦ none | some d ↦ some (combine d c size) ];
}

-- The loop of `get_articles`, with the server's queue of articles. At the limit the loop returns
-- before the file counts as tried.
unfoldable pub fetch_from : Server → List Server → ℕ → List ℕ → List ℕ × NzbFile → List ℕ × NzbFile
unfolding get_article
fetch_from server servers fetch_limit [] (queue, f) =
    (queue, record f { try_list = add_to_try_list server.id f.try_list })
fetch_from server servers fetch_limit (id ∷ ids) (queue, f) =
    let (given, a) = get_article server servers (f.store id) in
    let f' = set_article id a f in
    let queue' = queue ++ id ∷ [] in
    let go_on = fetch_from server servers fetch_limit ids in
    if given
    then (if leb fetch_limit (length queue') then (queue', f') else go_on (queue', f'))
    else go_on (queue, f')

unfoldable pub get_articles : Server → List Server → ℕ → List ℕ × NzbFile → List ℕ × NzbFile
unfolding fetch_from
get_articles server servers fetch_limit (queue, f) =
    fetch_from server servers fetch_limit f.articles (queue, f)

unfoldable pub reset_all_try_lists : NzbFile → NzbFile
unfolding reset_try_list
reset_all_try_lists f = record f {
  store = λ id. if contains id f.articles then reset_try_list (f.store id) else f.store id;
  try_list = [];
}

-- The property `completed`.
unfoldable pub completed : NzbFile → Bool
completed f = f.import_finished && elim f.articles [ [] ↦ true | _ ∷ _ ↦ false ]

unfoldable pub assembler_next_article : NzbFile → Option ℕ
assembler_next_article f = get_elem? f.decodetable f.assembler_next_index

abbrev pub is_some_size : Option ℕ → Bool
is_some_size none = false
is_some_size (some n) = ltb 0 n

abbrev pub size_or_zero : Option ℕ → ℕ
size_or_zero none = 0
size_or_zero (some n) = n

-- The sum of `contiguous_offset` over the articles that are written, where `file_size` is the size
-- of the file on disk if it exists, asked only for articles of an old queue.
unfoldable pub sum_offset : (ℕ → Article) → Option ℕ → ℕ → List ℕ → ℕ
sum_offset store file_size offset [] = offset
sum_offset store file_size offset (id ∷ ids) =
    let a = store id in
    let go_on = λ (n : ℕ). sum_offset store file_size n ids in
    if not a.on_disk
    then offset
    else if is_some_size a.data_size
    then go_on (a.data_begin + size_or_zero a.decoded_size)
    else elim a.decoded_size [
      | some size ↦ go_on (offset + size)
      | none ↦ elim file_size [ none ↦ go_on offset | some size ↦ size ]
    ]

-- The end of the last article that was written, if its headers were valid.
abbrev pub end_of_last : NzbFile → Option ℕ
end_of_last f = elim f.assembler_next_index [
  | zero ↦ none
  | suc n ↦ elim (get_elem? f.decodetable n) [
    | none ↦ none
    | some id ↦
        if (f.store id).on_disk && is_some_size (f.store id).data_size
        then some ((f.store id).data_begin + size_or_zero (f.store id).data_size)
        else none
  ]
]

unfoldable pub contiguous_offset : Option ℕ → NzbFile → ℕ
unfolding sum_offset
contiguous_offset file_size f = elim (end_of_last f) [
  | some offset ↦ offset
  | none ↦ sum_offset f.store file_size 0 (take f.assembler_next_index f.decodetable)
]

unfoldable pub sum_ready : (ℕ → Article) → ℕ → List ℕ → ℕ
sum_ready store bytes_ready [] = bytes_ready
sum_ready store bytes_ready (id ∷ ids) =
    let a = store id in
    let go_on = λ (n : ℕ). sum_ready store n ids in
    if not a.decoded
    then bytes_ready
    else if a.on_disk
    then go_on bytes_ready
    else elim a.decoded_size [ none ↦ bytes_ready | some size ↦ go_on (bytes_ready + size) ]

unfoldable pub contiguous_ready_bytes : NzbFile → ℕ
unfolding sum_ready
contiguous_ready_bytes f = sum_ready f.store 0 (drop f.assembler_next_index f.decodetable)
