-- ===== src/BpsMeter.antt =====
-- sabnzbd/bpsmeter.py: the counters of the downloaded bytes and the quota. A server is a number, as is
-- the label of a day, times are in seconds and a quota is in whole bytes. A read of a key that is not
-- in its dict raises, which is `none`. The calendar, and the arithmetic of the speeds in floating
-- point, are parameters.
pub mod Quota
pub mod Returns
pub mod Amounts
pub mod Counted
pub mod Started
pub mod Kept
pub mod Updated
pub mod Tests
use sabnzbd.Prelude.{
  ℕ, zero, suc, ◌+◌, ◌-◌, min, Bool, true, false, not, ◌&&◌, ◌||◌, ◌==◌, ltb, leb, if◌then◌else◌,
  Option, none, some, List, [], ◌∷◌, ◌++◌, length, drop, ℤ, pos, ◌-ℤ◌,
}
use sabnzbd.Prelude.Dict
use sabnzbd.Prelude.Dict.{Dict}

-- The time, its day, the ends of the periods that start now, the servers of the downloader, and the
-- speed: a new one from the old one and the bytes, whether one is below a hundredth of a byte, and its
-- KiB.
pub record World : Type 0 where
  pub now : ℕ
  pub today : ℕ
  pub tomorrow : ℕ
  pub next_week : ℕ
  pub next_month : ℕ
  pub servers : List ℕ
  pub speed : ℕ → ℕ → ℕ
  pub is_slow : ℕ → Bool
  pub to_kibi : ℕ → ℕ
  pub paused : Bool

pub record Meter : Type 0 where
  pub start_time : ℕ
  pub speed_log_time : ℕ
  pub last_update : ℕ
  pub bps : ℕ
  pub bps_list : List ℕ
  pub server_bps : Dict ℕ
  pub cached_amount : Dict ℕ
  pub sum_cached_amount : ℕ
  pub day_total : Dict ℕ
  pub week_total : Dict ℕ
  pub month_total : Dict ℕ
  pub grand_total : Dict ℕ
  pub timeline_total : Dict (Dict ℕ)
  pub article_stats_tried : Dict (Dict ℕ)
  pub article_stats_failed : Dict (Dict ℕ)
  pub delayed_assembler : ℕ
  pub day_label : ℕ
  pub end_of_day : ℕ
  pub end_of_week : ℕ
  pub end_of_month : ℕ
  pub quota : ℤ
  pub left : ℤ
  pub have_quota : Bool
  pub quota_enabled : Bool
  pub quota_notifications_sent : ℕ
  -- Whether the downloader was told to pause, and the notifications that were sent.
  pub pauses : Bool
  pub notified : List ℕ

infixl 5 ◌>>=◌
abbrev pub ◌>>=◌ {ℓ κ} : {A : Type ℓ} {B : Type κ} → Option A → (A → Option B) → Option B
none >>= f = none
some a >>= f = f a

-- `if key not in d: d[key] = value`
abbrev pub set_default {ℓ} : {V : Type ℓ} → ℕ → V → Dict V → Dict V
set_default k v d = if Dict.has k d then d else Dict.put k v d

abbrev pub get_or {ℓ} : {V : Type ℓ} → V → Option V → V
get_or v none = v
get_or v (some w) = w

-- The same of a day in the dict of a server.
abbrev pub set_day : ℕ → ℕ → Dict (Dict ℕ) → Dict (Dict ℕ)
set_day server day d =
    let days = get_or [] (Dict.get server d) in Dict.put server (set_default day 0 days) d

unfoldable pub init_server_stats : ℕ → Meter → Meter
init_server_stats server m =
    let known = Dict.has server m.article_stats_tried in
    let failed : Dict (Dict ℕ) =
      if known then m.article_stats_failed else Dict.put server [] m.article_stats_failed in
    let day_known = Dict.has m.day_label (get_or [] (Dict.get server m.article_stats_tried)) in
    record m {
      cached_amount = set_default server 0 m.cached_amount;
      server_bps =
          if Dict.has server m.cached_amount
          then set_default server 0 m.server_bps
          else Dict.put server 0 m.server_bps;
      day_total = set_default server 0 m.day_total;
      week_total = set_default server 0 m.week_total;
      month_total = set_default server 0 m.month_total;
      grand_total = set_default server 0 m.grand_total;
      timeline_total = set_day server m.day_label m.timeline_total;
      article_stats_tried = set_day server m.day_label m.article_stats_tried;
      article_stats_failed =
          if day_known
          then failed
          else Dict.put server (Dict.put m.day_label 0 (get_or [] (Dict.get server failed))) failed;
    }

abbrev pub init_all : List ℕ → Meter → Meter
init_all [] m = m
init_all (server ∷ servers) m = init_all servers (init_server_stats server m)

-- `d[key] += amount`
unfoldable pub add_to : ℕ → ℕ → Dict ℕ → Option (Dict ℕ)
add_to k amount d = elim (Dict.get k d) [ none ↦ none | some v ↦ some (Dict.put k (v + amount) d) ]

-- `d[server][day] += amount`
unfoldable pub add_to_day : ℕ → ℕ → ℕ → Dict (Dict ℕ) → Option (Dict (Dict ℕ))
unfolding add_to
add_to_day server day amount d = do
  days ← Dict.get server d
  days ← add_to day amount days
  some (Dict.put server days d)

-- `update` with a server: the amount is kept for later.
unfoldable pub update_server : ℕ → ℕ → Meter → Option Meter
update_server server amount m = do
  cached_amount ← add_to server amount m.cached_amount
  some
      (record m { cached_amount = cached_amount; sum_cached_amount = m.sum_cached_amount + amount })

-- The end of a day, and with it maybe of a week and a month.
unfoldable pub start_day : World → Meter → Meter
unfolding init_server_stats
start_day w m =
    if ltb m.end_of_day w.now
    then init_all w.servers (record m {
      day_label = w.today;
      end_of_day = w.tomorrow - 1;
      day_total = [];
      delayed_assembler = 0;
      week_total = if ltb m.end_of_week w.now then [] else m.week_total;
      end_of_week = if ltb m.end_of_week w.now then w.next_week - 1 else m.end_of_week;
      month_total = if ltb m.end_of_month w.now then [] else m.month_total;
      end_of_month = if ltb m.end_of_month w.now then w.next_month - 1 else m.end_of_month;
    })
    else m

-- The kept amount of a server goes to all its totals.
unfoldable pub book : ℕ → ℕ → Meter → Option Meter
book server cached m = do
  day_total ← add_to server cached m.day_total
  week_total ← add_to server cached m.week_total
  month_total ← add_to server cached m.month_total
  grand_total ← add_to server cached m.grand_total
  timeline_total ← add_to_day server m.day_label cached m.timeline_total
  some (record m {
    day_total = day_total;
    week_total = week_total;
    month_total = month_total;
    grand_total = grand_total;
    timeline_total = timeline_total;
    cached_amount = Dict.put server 0 m.cached_amount;
  })

abbrev pub book_some : ℕ → ℕ → Meter → Option Meter
book_some server cached m = if cached == 0 then some m else book server cached m

unfoldable pub set_speed : World → ℕ → ℕ → Meter → Option Meter
set_speed w server cached m = do
  bps ← Dict.get server m.server_bps
  some (record m { server_bps = Dict.put server (w.speed bps cached) m.server_bps })

-- The loop over the kept amounts.
unfoldable pub book_all : World → Dict ℕ → Meter → Option Meter
unfolding book set_speed
book_all w [] m = some m
book_all w ((server, cached) ∷ rest) m = do
  m ← book_some server cached m
  m ← set_speed w server cached m
  book_all w rest m

abbrev pub bps_list_max : ℕ
bps_list_max = 275

unfoldable pub add_empty_time : World → Meter → Meter
add_empty_time w m =
    let nr_diffs = min (w.now - m.speed_log_time) bps_list_max in
    let bps_list : List ℕ = if ltb 1 nr_diffs then m.bps_list ++ zeros nr_diffs else m.bps_list in
    record m {
      bps_list =
          if ltb bps_list_max (length bps_list)
          then drop (length bps_list - bps_list_max) bps_list
          else bps_list;
    }
  where
    zeros : ℕ → List ℕ
    zeros zero = []
    zeros (suc n) = 0 ∷ zeros n
