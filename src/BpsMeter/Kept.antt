-- ===== src/BpsMeter/Kept.antt =====
-- sabnzbd/bpsmeter.py: what `update` does after the booking leaves the totals.
use sabnzbd.Prelude.{◌+◌, ◌≡◌, refl, ◌∙◌, ◌&&◌, ltb, if_ind, eqb_ℤ, pos}
use sabnzbd.BpsMeter.{World, Meter, add_empty_time}
use sabnzbd.BpsMeter.Quota.{
  charge_quota, speedometer, reset_slow, log_speed, check_quota, reset, end_update,
}

-- What comes after the booking leaves the totals.
pub record Kept (m m' : Meter) : Type 0 where
  pub day : m'.day_total ≡ m.day_total
  pub week : m'.week_total ≡ m.week_total
  pub month : m'.month_total ≡ m.month_total
  pub grand : m'.grand_total ≡ m.grand_total
  pub timeline : m'.timeline_total ≡ m.timeline_total
  pub cached : m'.cached_amount ≡ m.cached_amount

Kept-refl : (m : Meter) → Kept m m
Kept-refl m = record {
  day = refl;
  week = refl;
  month = refl;
  grand = refl;
  timeline = refl;
  cached = refl;
}

Kept-trans : (m n r : Meter) → Kept m n → Kept n r → Kept m r
Kept-trans m n r h k = record {
  day = k.day ∙ h.day;
  week = k.week ∙ h.week;
  month = k.month ∙ h.month;
  grand = k.grand ∙ h.grand;
  timeline = k.timeline ∙ h.timeline;
  cached = k.cached ∙ h.cached;
}

charge_quota-Kept : (w : World) (m : Meter) → Kept m (charge_quota w m)
unfolding charge_quota check_quota
charge_quota-Kept w m =
    if_ind (Kept m) (m.have_quota && m.quota_enabled)
      (λ _.
        if_ind (Kept m) (eqb_ℤ m.quota (pos 0))
          (λ _. record {
            day = refl;
            week = refl;
            month = refl;
            grand = refl;
            timeline = refl;
            cached = refl;
          })
          (λ _. record {
            day = refl;
            week = refl;
            month = refl;
            grand = refl;
            timeline = refl;
            cached = refl;
          }))
      (λ _. Kept-refl m)

reset_slow-Kept :
    (w : World) (m : Meter)
    → Kept m (reset_slow w m) × ((reset_slow w m).sum_cached_amount ≡ m.sum_cached_amount)
unfolding reset_slow reset
reset_slow-Kept w m =
    if_ind (λ (r : Meter). Kept m r × (r.sum_cached_amount ≡ m.sum_cached_amount)) (w.is_slow m.bps)
      (λ _. (
        record {
          day = refl;
          week = refl;
          month = refl;
          grand = refl;
          timeline = refl;
          cached = refl;
        },
        refl,
      ))
      (λ _. (Kept-refl m, refl))

log_speed-Kept :
    (w : World) (m : Meter)
    → Kept m (log_speed w m) × ((log_speed w m).sum_cached_amount ≡ m.sum_cached_amount)
unfolding log_speed add_empty_time
log_speed-Kept w m =
    if_ind (λ (r : Meter). Kept m r × (r.sum_cached_amount ≡ m.sum_cached_amount))
      (ltb (m.speed_log_time + 1) w.now)
      (λ _. (
        record {
          day = refl;
          week = refl;
          month = refl;
          grand = refl;
          timeline = refl;
          cached = refl;
        },
        refl,
      ))
      (λ _. (Kept-refl m, refl))

pub end_update-Kept :
    (w : World) (m : Meter) → Kept m (end_update w m) × ((end_update w m).sum_cached_amount ≡ 0)
unfolding end_update
end_update-Kept w m =
    let charged = charge_quota w m in
    let measured = speedometer w charged in
    let (k, c) = reset_slow-Kept w measured in
    let (k', c') = log_speed-Kept w (reset_slow w measured) in
    (
      Kept-trans m charged (end_update w m) (charge_quota-Kept w m) (
          Kept-trans charged measured (end_update w m) (speedometer-Kept w charged)
            (Kept-trans measured (reset_slow w measured) (end_update w m) k k')),
      c' ∙ c ∙ emptied w charged,
    )
  where
    speedometer-Kept : (w : World) (m : Meter) → Kept m (speedometer w m)
    speedometer-Kept w m =
        unfold speedometer in
        record {
          day = refl;
          week = refl;
          month = refl;
          grand = refl;
          timeline = refl;
          cached = refl;
        }

    emptied : (w : World) (m : Meter) → (speedometer w m).sum_cached_amount ≡ 0
    emptied w m = unfold speedometer in refl
