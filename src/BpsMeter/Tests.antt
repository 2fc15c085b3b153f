-- ===== src/BpsMeter/Tests.antt =====
-- sabnzbd/bpsmeter.py: a small meter, and the theorem of the meter at work on it.
use sabnzbd.Prelude.{ℕ, ◌+◌, ◌≡◌, refl, true, false, ◌==◌, some, [], ◌∷◌, pos}
use sabnzbd.BpsMeter.{World, Meter, start_day}
use sabnzbd.BpsMeter.Quota.{update}
use sabnzbd.BpsMeter.Returns.{AllKnown}
use sabnzbd.BpsMeter.Updated.{IsCounted, update-IsCounted}

-- The day has ended, the week and the month have not.
abbrev night : World
night = record {
  now = 1000;
  today = 8;
  tomorrow = 2000;
  next_week = 9000;
  next_month = 9000;
  servers = 1 ∷ 2 ∷ [];
  speed = λ bps n. bps + n;
  is_slow = λ bps. bps == 0;
  to_kibi = λ n. n;
  paused = false;
}

abbrev some_meter : Meter
some_meter = record {
  start_time = 990;
  speed_log_time = 990;
  last_update = 995;
  bps = 10;
  bps_list = 1 ∷ [];
  server_bps = (1, 5) ∷ (2, 6) ∷ [];
  cached_amount = (1, 100) ∷ (2, 0) ∷ [];
  sum_cached_amount = 100;
  day_total = (1, 7) ∷ (2, 8) ∷ [];
  week_total = (1, 17) ∷ (2, 18) ∷ [];
  month_total = (1, 27) ∷ (2, 28) ∷ [];
  grand_total = (1, 37) ∷ (2, 38) ∷ [];
  timeline_total = (1, (7, 7) ∷ []) ∷ (2, (7, 8) ∷ []) ∷ [];
  article_stats_tried = [];
  article_stats_failed = [];
  delayed_assembler = 3;
  day_label = 7;
  end_of_day = 999;
  end_of_week = 5000;
  end_of_month = 5000;
  quota = pos 1000;
  left = pos 300;
  have_quota = true;
  quota_enabled = true;
  quota_notifications_sent = 0;
  pauses = false;
  notified = [];
}

some_meter-AllKnown :
    AllKnown (start_day night some_meter).cached_amount (start_day night some_meter)
unfolding start_day
some_meter-AllKnown = (
  record {
    day = refl;
    week = refl;
    month = refl;
    grand = refl;
    speed = refl;
    days = (7, 7) ∷ (8, 0) ∷ [];
    timeline = refl;
    label = refl;
  },
  (
    record {
      day = refl;
      week = refl;
      month = refl;
      grand = refl;
      speed = refl;
      days = (7, 8) ∷ (8, 0) ∷ [];
      timeline = refl;
      label = refl;
    },
    tt,
  ),
)

update-IsCounted_example :
    (m' : Meter) × (update night some_meter ≡ some m')
    × ((server : ℕ) → IsCounted server night some_meter m')
    × (m'.sum_cached_amount ≡ 0)
update-IsCounted_example = update-IsCounted night some_meter (refl, (refl, tt)) some_meter-AllKnown
