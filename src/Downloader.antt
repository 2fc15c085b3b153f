-- ===== src/Downloader.antt =====
-- sabnzbd/downloader.py: the servers of the downloader, their articles and the timers of those that
-- were blocked. A server and an article are numbers, times and intervals are in seconds.
pub mod Marks
pub mod Woken
pub mod Cleaning
pub mod Timers
pub mod Tests
use sabnzbd.Prelude.{
  ℕ, ◌+◌, ◌*◌, Bool, true, false, not, ◌&&◌, ◌||◌, ◌==◌, ltb, leb, if◌then◌else◌, Option, none,
  some, List, [], ◌∷◌, ◌++◌, contains,
}
use sabnzbd.Prelude.Dict
use sabnzbd.Prelude.Dict.{Dict}

-- `resolves` is `addrinfo`: not asked yet, failed, or found. `key` is the text by which the servers
-- are sorted.
pub record Server : Type 0 where
  pub id : ℕ
  pub key : ℕ
  pub priority : ℕ
  pub threads : ℕ
  pub required : Bool
  pub optional : Bool
  pub active : Bool
  pub restart : Bool
  pub newid : Option ℕ
  pub bad_cons : ℕ
  pub resolves : Option Bool
  pub retention : ℕ
  pub article_queue : List ℕ
  pub next_article_search : ℕ

-- The time, and the server of a name in the configuration: none when there is none, or one that is
-- off or lacks a host, a port or threads.
pub record World : Type 0 where
  pub now : ℕ
  pub config : ℕ → Option Server
  pub no_penalties : Bool

-- `released` are the articles that may be fetched again, `plans` what the scheduler was asked for:
-- the server and the time, or none for a required server.
pub record Downloader : Type 0 where
  pub servers : List Server
  pub timers : Dict (List ℕ)
  pub server_restarts : ℕ
  pub released : List ℕ
  pub plans : List (Option (ℕ × ℕ))
  pub disconnected : List ℕ

abbrev pub penalty_timeout : ℕ
penalty_timeout = 600

abbrev pub penalty_short : ℕ
penalty_short = 60

abbrev pub insert_server : Server → List Server → List Server
insert_server s [] = s ∷ []
insert_server s (t ∷ servers) =
    let rest = insert_server s servers in if leb s.key t.key then s ∷ t ∷ servers else t ∷ rest

-- The sort by the keys is stable: servers of equal keys keep their order.
unfoldable pub sort_servers : List Server → List Server
sort_servers [] = []
sort_servers (s ∷ servers) = insert_server s (sort_servers servers)

-- The running server of a name is set up again later.
abbrev pub mark_restart : ℕ → ℕ → List Server → Option (List Server)
mark_restart old new [] = none
mark_restart old new (s ∷ servers) =
    let rest = mark_restart old new servers in
    if s.id == old
    then some (record s { newid = some new; restart = true } ∷ servers)
    else (elim rest [ none ↦ none | some l ↦ some (s ∷ l) ])

-- A server starts active, without work or errors.
abbrev pub new_server : ℕ → Server → Server
new_server id s = record s {
  id = id;
  active = true;
  restart = false;
  newid = none;
  bad_cons = 0;
  resolves = none;
  article_queue = [];
  next_article_search = 0;
}

unfoldable pub create_server : ℕ → Option Server → Downloader → Downloader
unfolding sort_servers
create_server id none d = d
create_server id (some s) d = record d {
  servers = sort_servers (d.servers ++ new_server id s ∷ []);
}

unfoldable pub init_server : World → ℕ → ℕ → Downloader → Downloader
unfolding create_server
init_server w old new d = elim (mark_restart old new d.servers) [
  | some servers ↦ record d { servers = servers; server_restarts = d.server_restarts + 1 }
  | none ↦ create_server new (w.config new) d
]

abbrev pub get_or_empty : Option (List ℕ) → List ℕ
get_or_empty none = []
get_or_empty (some l) = l

-- With no penalties a server is back after the shortest one.
unfoldable pub plan_server : World → ℕ → ℕ → Downloader → Downloader
plan_server w id interval d =
    let interval : ℕ =
      if w.no_penalties && ltb penalty_short interval then penalty_short else interval in
    let stamp = w.now + interval in
    record d {
      timers = Dict.put id (get_or_empty (Dict.get id d.timers) ++ stamp ∷ []) d.timers;
      plans = if interval == 0 then d.plans else d.plans ++ some (id, stamp) ∷ [];
    }

unfoldable pub trigger_server : World → ℕ → ℕ → Downloader → Downloader
unfolding init_server
trigger_server w id timestamp d =
    if contains timestamp (get_or_empty (Dict.get id d.timers))
    then init_server w id id (record d { timers = Dict.remove id d.timers })
    else d

abbrev pub has_inactive : ℕ → List Server → Bool
has_inactive id [] = false
has_inactive id (s ∷ servers) = s.id == id && not s.active || has_inactive id servers

unfoldable pub unblock : World → ℕ → Downloader → Downloader
unfolding init_server
unblock w id d =
    let d : Downloader = record d { timers = Dict.remove id d.timers } in
    if has_inactive id d.servers then init_server w id id d else d

-- A timer that has not expired.
abbrev pub has_live : ℕ → List ℕ → Bool
has_live now [] = false
has_live now (stamp ∷ stamps) = leb now stamp || has_live now stamps

-- The servers of expired timers are set up again.
unfoldable pub clean_timers : World → Dict (List ℕ) → List ℕ → Downloader → List ℕ × Downloader
unfolding init_server
clean_timers w [] kicked d = (kicked, d)
clean_timers w ((id, stamps) ∷ rest) kicked d =
    if has_live w.now stamps
    then clean_timers w rest kicked d
    else clean_timers w rest (id ∷ kicked)
        (init_server w id id (record d { timers = Dict.remove id d.timers }))

-- And every inactive server without a timer.
unfoldable pub activate : World → List Server → List ℕ → Downloader → Downloader
unfolding init_server
activate w [] kicked d = d
activate w (s ∷ servers) kicked d = activate w servers kicked (
    if not (Dict.has s.id d.timers) && not (contains s.id kicked) && not s.active
    then init_server w s.id s.id d
    else d)

unfoldable pub check_timers : World → Downloader → Downloader
unfolding clean_timers activate
check_timers w d = let (kicked, d) = clean_timers w d.timers [] d in activate w d.servers kicked d

-- `deactivate`: the articles of the server may be fetched again.
unfoldable pub deactivate : Server → Downloader → Server × Downloader
deactivate s d = (
  record s { active = false; article_queue = [] },
  record d { released = d.released ++ s.article_queue },
)

-- A server that does not resolve, and an optional one with too many bad connections, three in ten of
-- its threads, are blocked.
unfoldable pub block_unresolved : World → Server → Downloader → Server × Downloader
unfolding deactivate plan_server
block_unresolved w s d =
    let s : Server = record s { bad_cons = 0 } in
    if s.required
    then (s, record d { plans = d.plans ++ none ∷ [] })
    else (let (s', d') = deactivate s d in (s', plan_server w s.id penalty_timeout d'))

unfoldable pub block_optional : World → Server → Downloader → Server × Downloader
unfolding deactivate plan_server
block_optional w s d =
    if s.optional && s.active && ltb (3 * s.threads) (10 * s.bad_cons)
    then (let (s', d') = deactivate (record s { bad_cons = 0 }) d in
        (
          record s' { resolves = none },
          record (plan_server w s.id penalty_timeout d') {
            disconnected = d.disconnected ++ s.id ∷ [];
          },
        ))
    else (s, d)

abbrev pub is_unresolved : Option Bool → Bool
is_unresolved (some false) = true
is_unresolved _ = false

unfoldable pub maybe_block_server : World → Server → Downloader → Server × Downloader
unfolding block_unresolved block_optional
maybe_block_server w s d =
    let (s', d') : Server × Downloader =
      if is_unresolved s.resolves then block_unresolved w s d else (s, d) in
    block_optional w s' d'

-- Whether no active server stands before those of the server's own priority.
unfoldable pub highest_server : ℕ → List Server → Bool
highest_server priority [] = false
highest_server priority (s ∷ servers) =
    let rest = highest_server priority servers in
    if s.priority == priority then true else if s.active then false else rest
