-- ===== src/BpsMeter/Quota.antt =====
-- sabnzbd/bpsmeter.py: the quota, `update` without a server, and the reads of the totals.
use sabnzbd.Prelude.{
  ℕ, ◌+◌, ◌-◌, ◌*◌, ◌/◌, Bool, true, false, not, ◌&&◌, ◌||◌, ltb, leb, if◌then◌else◌, Option, some,
  List, [], ◌∷◌, ◌++◌, ℤ, pos, negsuc, ◌-ℤ◌, ltb_ℤ, eqb_ℤ,
}
use sabnzbd.Prelude.Dict
use sabnzbd.Prelude.Dict.{Dict}
use sabnzbd.BpsMeter.{
  World, Meter, ◌>>=◌, get_or, init_server_stats, add_to_day, start_day, book_all, add_empty_time,
}

abbrev pub to_nat : ℤ → ℕ
to_nat (pos n) = n
to_nat (negsuc _) = 0

-- The percentage of a quota that is used, rounded down, of which only what is above 75 matters.
unfoldable pub used_percentage : ℤ → ℤ → ℕ
unfolding ◌-ℤ◌
used_percentage quota left = to_nat (quota -ℤ left) * 100 / to_nat quota

-- The highest threshold that is passed and was not notified yet.
unfoldable pub threshold : ℕ → ℕ → List ℕ
threshold used sent =
    if leb 100 used && ltb sent 100
    then 100 ∷ []
    else if leb 90 used && ltb sent 90
    then 90 ∷ []
    else if leb 75 used && ltb sent 75
    then 75 ∷ []
    else []

unfoldable pub check_quota : World → Meter → Meter
unfolding used_percentage threshold
check_quota w m =
    let m : Meter = record m { pauses = m.pauses || not (ltb_ℤ (pos 0) m.left) && not w.paused } in
    if eqb_ℤ m.quota (pos 0)
    then m
    else (let used = used_percentage m.quota m.left in
        record m {
          notified = m.notified ++ threshold used m.quota_notifications_sent;
          quota_notifications_sent = used;
        })

-- `reset`: the speeds start anew.
unfoldable pub reset : World → Meter → Meter
reset w m = record m {
  start_time = w.now;
  last_update = w.now;
  bps = 0;
  server_bps = clear m.server_bps;
}
  where
    clear : Dict ℕ → Dict ℕ
    clear [] = []
    clear ((server, _) ∷ rest) = (server, 0) ∷ clear rest

-- The quota pays for the amount.
unfoldable pub charge_quota : World → Meter → Meter
unfolding check_quota ◌-ℤ◌
charge_quota w m =
    if m.have_quota && m.quota_enabled
    then check_quota w (record m { left = m.left -ℤ pos m.sum_cached_amount })
    else m

unfoldable pub speedometer : World → Meter → Meter
speedometer w m = record m {
  bps = w.speed m.bps m.sum_cached_amount;
  sum_cached_amount = 0;
  last_update = w.now;
  start_time = if ltb (m.start_time + 5) w.now then w.now - 5 else m.start_time;
}

unfoldable pub reset_slow : World → Meter → Meter
unfolding reset
reset_slow w m = if w.is_slow m.bps then reset w m else m

unfoldable pub log_speed : World → Meter → Meter
unfolding add_empty_time
log_speed w m =
    if ltb (m.speed_log_time + 1) w.now
    then (let m' : Meter = add_empty_time w m in
        record m' { bps_list = m'.bps_list ++ w.to_kibi m'.bps ∷ []; speed_log_time = w.now })
    else m

-- What `update` does after the amounts are booked.
unfoldable pub end_update : World → Meter → Meter
unfolding charge_quota speedometer reset_slow log_speed
end_update w m = log_speed w (reset_slow w (speedometer w (charge_quota w m)))

-- `update` without a server.
unfoldable pub update : World → Meter → Option Meter
unfolding start_day book_all end_update
update w m = do
  let m : Meter = start_day w m
  m ← book_all w m.cached_amount m
  some (end_update w m)

unfoldable pub register_server_article_tried : ℕ → Meter → Option Meter
unfolding add_to_day
register_server_article_tried server m = do
  tried ← add_to_day server m.day_label 1 m.article_stats_tried
  some (record m { article_stats_tried = tried })

unfoldable pub register_server_article_failed : ℕ → Meter → Option Meter
unfolding add_to_day
register_server_article_failed server m = do
  failed ← add_to_day server m.day_label 1 m.article_stats_failed
  some (record m { article_stats_failed = failed })

abbrev pub sum : Dict ℕ → ℕ
sum d = Dict.total (λ n. n) d

-- Grand, month, week and day totals.
unfoldable pub get_sums : Meter → ℕ × ℕ × ℕ × ℕ
get_sums m = (sum m.grand_total, sum m.month_total, sum m.week_total, sum m.day_total)

unfoldable pub amounts : ℕ → Meter → ℕ × ℕ × ℕ × ℕ × Dict ℕ × Dict ℕ × Dict ℕ
amounts server m = (
  get_or 0 (Dict.get server m.grand_total),
  get_or 0 (Dict.get server m.month_total),
  get_or 0 (Dict.get server m.week_total),
  get_or 0 (Dict.get server m.day_total),
  get_or [] (Dict.get server m.timeline_total),
  get_or [] (Dict.get server m.article_stats_tried),
  get_or [] (Dict.get server m.article_stats_failed),
)

unfoldable pub clear_server : ℕ → Meter → Meter
unfolding init_server_stats
clear_server server m = init_server_stats server (record m {
  day_total = Dict.remove server m.day_total;
  week_total = Dict.remove server m.week_total;
  month_total = Dict.remove server m.month_total;
  grand_total = Dict.remove server m.grand_total;
  timeline_total = Dict.remove server m.timeline_total;
  article_stats_tried = Dict.remove server m.article_stats_tried;
  article_stats_failed = Dict.remove server m.article_stats_failed;
})

-- The settings of the quota, and the time of its next reset, which the calendar gives.
pub record Settings : Type 0 where
  pub quota_size : ℕ
  pub quota_resume : Bool
  pub q_time : ℕ

-- Whether the downloader stays paused, and the call to resume it.
unfoldable pub reset_quota : World → Settings → Bool → Meter → (Bool × Bool) × Meter
reset_quota w s force m =
    if force || m.have_quota && ltb (s.q_time - 50) w.now
    then (
      (false, s.quota_resume),
      record m { quota = pos s.quota_size; left = pos s.quota_size; quota_notifications_sent = 0 },
    )
    else ((true, false), m)

-- The usage of the period, when there was no quota before, and the new rest of the quota. The period
-- is given by its total.
unfoldable pub changed_quota : Settings → ℕ → Meter → Meter
unfolding ◌-ℤ◌
changed_quota s period_total m =
    let m : Meter =
      if not m.have_quota && not (ltb_ℤ (pos 0) m.quota)
      then record m { left = pos period_total }
      else m in
    if ltb 0 s.quota_size
    then record m {
      have_quota = true;
      left =
          if eqb_ℤ m.quota (pos 0)
          then pos s.quota_size -ℤ m.left
          else pos s.quota_size -ℤ (m.quota -ℤ m.left);
      quota = pos s.quota_size;
    }
    else record m { have_quota = false; left = pos 0; quota = pos 0 }

unfoldable pub set_status : Bool → Meter → Meter
set_status status m = record m { quota_enabled = status }
