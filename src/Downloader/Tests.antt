-- ===== src/Downloader/Tests.antt =====
-- sabnzbd/downloader.py: two blocked servers, of which one has a timer, and the theorem of the timers at
-- work on them.
use sabnzbd.Prelude.{
  ℕ, ◌+◌, ◌≡◌, refl, Bool, true, false, inl, inr, ◌==◌, leb, Bool-cases, none, some, [], ◌∷◌, arith,
}
use sabnzbd.Downloader.{Server, World, Downloader, get_or_empty, has_live, check_timers}
use sabnzbd.Downloader.Marks.{IsOnce, one_if}
use sabnzbd.Downloader.Timers.{check_timers-is_live}
use sabnzbd.Prelude.Dict

abbrev blocked : ℕ → Server
blocked id = record {
  id = id;
  key = id;
  priority = 0;
  threads = 8;
  required = false;
  optional = true;
  active = false;
  restart = false;
  newid = none;
  bad_cons = 0;
  resolves = some true;
  retention = 0;
  article_queue = [];
  next_article_search = 0;
}

abbrev at_noon : World
at_noon = record { now = 43200; config = λ _. none; no_penalties = false }

abbrev two_blocked : Downloader
two_blocked = record {
  servers = blocked 1 ∷ blocked 2 ∷ [];
  timers = (1, 43500 ∷ []) ∷ (3, 43100 ∷ []) ∷ [];
  server_restarts = 0;
  released = [];
  plans = [];
  disconnected = [];
}

two_blocked-IsOnce : IsOnce two_blocked.servers
two_blocked-IsOnce id = elim (Bool-cases (1 == id)) [
  | inl e ↦ (let ne : (2 == id) ≡ false = ground arith in rw e (rw ne refl))
  | inr e ↦ rw e (second (2 == id))
]
  where
    second : (b : Bool) → leb (0 + (one_if b + 0)) 1 ≡ true
    second true = refl
    second false = refl

-- The second server has no timer and is set up again.
restarted : (check_timers at_noon two_blocked).server_restarts ≡ 1
unfolding check_timers
restarted = refl

check_timers-is_live_example :
    has_live 43200 (get_or_empty (Dict.get 1 (check_timers at_noon two_blocked).timers)) ≡ true
unfolding check_timers
check_timers-is_live_example =
    check_timers-is_live at_noon two_blocked (refl, (refl, tt)) two_blocked-IsOnce 1 refl
