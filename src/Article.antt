-- ===== src/Article.antt =====
-- sabnzbd/nzb/article.py: the servers that an article has been tried on, and the choice of the
-- server that fetches it. A server is referred to by its number; the order of `servers` is that of
-- the downloader, by priority, where 0 is the highest.
pub mod Priority
pub mod Retry
pub mod Tests
use sabnzbd.Prelude.{
  ℕ, ◌+◌, Bool, true, false, not, ◌&&◌, ◌||◌, ◌==◌, ltb, leb, if◌then◌else◌, Option, none, some,
  List, [], ◌∷◌, contains, remove_one, add_key, keep,
}

pub record Server : Type 0 where
  pub id : ℕ
  pub priority : ℕ
  pub active : Bool

pub record Article : Type 0 where
  pub bytes : ℕ
  pub lowest_partnum : Bool
  pub try_list : List ℕ
  pub fetcher : Option ℕ
  pub fetcher_priority : ℕ
  pub tries : ℕ
  pub decoded : Bool
  pub on_disk : Bool
  pub data_begin : ℕ
  pub data_size : Option ℕ
  pub decoded_size : Option ℕ

-- TryList
abbrev pub server_in_try_list : ℕ → List ℕ → Bool
server_in_try_list server tried = contains server tried

abbrev pub all_servers_in_try_list : List ℕ → List ℕ → Bool
all_servers_in_try_list [] tried = true
all_servers_in_try_list (s ∷ all_servers) tried =
    contains s tried && all_servers_in_try_list all_servers tried

abbrev pub add_to_try_list : ℕ → List ℕ → List ℕ
add_to_try_list server tried = add_key server tried

abbrev pub remove_from_try_list : ℕ → List ℕ → List ℕ
remove_from_try_list server tried = remove_one server tried

unfoldable pub reset_try_list : Article → Article
reset_try_list a = record a { try_list = []; fetcher = none; fetcher_priority = 0 }

-- The `set` of ids that is pickled, and the one that is read back: servers that are gone are dropped.
unfoldable pub save_try_list : List ℕ → List ℕ
save_try_list tried = tried

unfoldable pub load_try_list : List Server → List ℕ → List ℕ
load_try_list [] ids = []
load_try_list (s ∷ servers) ids =
    let rest = load_try_list servers ids in
    if contains s.id ids then add_to_try_list s.id rest else rest

-- The loop over the servers: the priority of the first one that goes before `server`.
unfoldable pub higher_server : ℕ → List ℕ → List Server → Option ℕ
higher_server priority tried [] = none
higher_server priority tried (s ∷ servers) =
    let rest = higher_server priority tried servers in
    if ltb s.priority priority
    then (if s.active && not (contains s.id tried) then some s.priority else rest)
    else none

unfoldable pub take_fetcher : Server → Article → Article
take_fetcher server a = record a {
  fetcher_priority = server.priority;
  fetcher = some server.id;
  tries = a.tries + 1;
}

abbrev pub has_fetcher : Article → Bool
has_fetcher a = elim a.fetcher [ none ↦ false | some _ ↦ true ]

unfoldable pub wait_or_take : Server → Article → Option ℕ → Bool × Article
unfolding take_fetcher
wait_or_take server a (some priority) = (false, record a { fetcher_priority = priority })
wait_or_take server a none = (true, take_fetcher server a)

-- Whether the article is handed out, and the article after the call.
unfoldable pub get_article : Server → List Server → Article → Bool × Article
unfolding wait_or_take
get_article server servers a =
    if has_fetcher a || contains server.id a.try_list
    then (false, a)
    else if ltb a.fetcher_priority server.priority
    then wait_or_take server a (higher_server server.priority a.try_list servers)
    else (true, take_fetcher server a)

-- `allow_new_fetcher`, as far as the article goes: the caller resets the lists of the file and the job.
unfoldable pub allow_new_fetcher : Bool → Article → Article
allow_new_fetcher remove_fetcher a = record a {
  try_list =
      if remove_fetcher
      then elim a.fetcher [ none ↦ a.try_list | some f ↦ remove_from_try_list f a.try_list ]
      else a.try_list;
  fetcher = none;
  tries = 0;
}

-- The loop over the servers: is there one left for the article?
unfoldable pub other_server : ℕ → List ℕ → List Server → Bool
other_server priority tried [] = false
other_server priority tried (s ∷ servers) =
    (s.active && not (contains s.id tried) && leb priority s.priority)
    || other_server priority tried servers

-- `search_new_server` of the article that `fetcher` could not deliver. If the result is true, the
-- caller resets the try lists of the file and the job.
unfoldable pub search_new_server : Server → List Server → Article → Bool × Article
unfolding allow_new_fetcher
search_new_server fetcher servers a =
    let a' = record a { try_list = add_to_try_list fetcher.id a.try_list } in
    if other_server fetcher.priority a'.try_list servers
    then (true, allow_new_fetcher false a')
    else (false, a')
