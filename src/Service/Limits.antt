-- ===== src/Service/Limits.antt =====
-- The limits of times and areas: `force_range`, `TimeConstraint`, `round_max_5`, and the interval
-- of a cluster query (src/service.rs).
use bo_srv_rs.Common.{◌/◌, ◌≡◌, arith, if◌then◌else◌}
use bo_srv_rs.Common.Int.{ℤ, pos, negsuc, ◌+ℤ◌, ◌-ℤ◌, ◌*ℤ◌, ◌==ℤ◌, ltb_ℤ, ◌≤ℤ◌, max_ℤ, rem_euclid}

unfoldable pub force_range : ℤ → ℤ → ℤ → ℤ
force_range lower_limit value upper_limit =
    if ltb_ℤ value lower_limit
    then lower_limit
    else if ltb_ℤ upper_limit value
    then upper_limit
    else value

unfoldable pub round_max_5 : ℤ → ℤ
round_max_5 data_area = max_ℤ (pos 5) data_area

pub record TimeConstraint : Type 0 where
  pub default_minute_length : ℤ
  pub max_minute_length : ℤ

-- The length behind the first two steps of `enforce`.
unfoldable pub enforce_length : TimeConstraint → ℤ → ℤ
unfolding force_range
enforce_length c minute_length =
    let forced = force_range (pos 0) minute_length c.max_minute_length in
    if forced ==ℤ pos 0 then c.default_minute_length else forced

unfoldable pub enforce : TimeConstraint → ℤ → ℤ → ℤ × ℤ
unfolding enforce_length force_range
enforce c minute_length minute_offset =
    let length = enforce_length c minute_length in
    (length, force_range (length -ℤ c.max_minute_length) minute_offset (pos 0))

abbrev pub max_minutes_per_day : ℤ
max_minutes_per_day = pos 1440

-- `minute_constraints` of the service.
abbrev pub minute_constraints : TimeConstraint
minute_constraints = record {
  default_minute_length = pos 60;
  max_minute_length = max_minutes_per_day;
}

-- The times of a request, whatever it asks for: between one minute and a day, and not
-- reaching further back than a day from now. To enforce the limits once more changes nothing.
pub enforce_limits :
    (minute_length minute_offset : ℤ)
    → let (length, offset) = enforce minute_constraints minute_length minute_offset in
      (pos 1 ≤ℤ length)
      × (length ≤ℤ max_minutes_per_day)
      × (offset ≤ℤ pos 0)
      × (length ≤ℤ offset +ℤ max_minutes_per_day)
      × (enforce minute_constraints length offset ≡ (length, offset))
unfolding enforce enforce_length force_range ◌-ℤ◌ ◌+ℤ◌
enforce_limits minute_length minute_offset = ground arith

-- The start of the minute of a time in seconds.
unfoldable pub minute_start : ℤ → ℤ
minute_start now_secs = now_secs -ℤ pos (rem_euclid now_secs 60)

-- `create_cluster_time_interval_at`, in seconds: the start and the end.
unfoldable pub cluster_time_interval : (minute_length minute_offset now_secs : ℤ) → ℤ × ℤ
unfolding minute_start
cluster_time_interval minute_length minute_offset now_secs =
    let end = minute_start now_secs +ℤ minute_offset *ℤ pos 60 in
    (end -ℤ minute_length *ℤ pos 60, end)

-- `create_time_interval_at`, in seconds.
unfoldable pub time_interval : (minute_length minute_offset now_secs : ℤ) → ℤ × ℤ
time_interval minute_length minute_offset now_secs =
    let end = now_secs +ℤ minute_offset *ℤ pos 60 in (end -ℤ minute_length *ℤ pos 60, end)

minute_start-whole : (now_secs : ℤ) → (k : ℤ) × (minute_start now_secs ≡ k *ℤ pos 60)
unfolding minute_start rem_euclid ◌-ℤ◌ ◌*ℤ◌
minute_start-whole (pos n) = (pos (n / 60), ground arith)
minute_start-whole (negsuc n) = (negsuc (n / 60), ground arith)

minutes-add : (a b : ℤ) → a *ℤ pos 60 +ℤ b *ℤ pos 60 ≡ (a +ℤ b) *ℤ pos 60
unfolding ◌+ℤ◌ ◌*ℤ◌
minutes-add a b = ground arith

minutes-sub : (a b : ℤ) → a *ℤ pos 60 -ℤ b *ℤ pos 60 ≡ (a -ℤ b) *ℤ pos 60
unfolding ◌-ℤ◌ ◌*ℤ◌
minutes-sub a b = ground arith

-- The interval of a cluster query begins and ends at whole minutes, also before the epoch; its
-- end without the offset is the start of the current minute, at most now and less than a minute
-- ago.
pub cluster_time_interval-whole :
    (minute_length minute_offset now_secs : ℤ)
    → let (start, end) = cluster_time_interval minute_length minute_offset now_secs in
      ((k : ℤ) × (end ≡ k *ℤ pos 60))
      × ((k : ℤ) × (start ≡ k *ℤ pos 60))
      × (minute_start now_secs ≤ℤ now_secs)
      × (now_secs +ℤ pos 1 ≤ℤ minute_start now_secs +ℤ pos 60)
unfolding cluster_time_interval
cluster_time_interval-whole minute_length minute_offset now_secs =
    let (m, e) = minute_start-whole now_secs in
    (
      (m +ℤ minute_offset, rw e (minutes-add m minute_offset)),
      (
        m +ℤ minute_offset -ℤ minute_length,
        rw (e, minutes-add m minute_offset) (minutes-sub (m +ℤ minute_offset) minute_length),
      ),
      unfold minute_start rem_euclid ◌-ℤ◌ in ground arith,
      unfold minute_start rem_euclid ◌-ℤ◌ ◌+ℤ◌ in ground arith,
    )
