-- ===== src/Transport/Gsusb/Bittiming/Sound.antt =====
-- src/transport/can_gsusb.rs: what `compute_bittiming` returns.
use cyphal_service.Common.{
  ℕ, zero, suc, ◌+◌, ◌-◌, ◌≤◌, ◌<◌, ◌/◌, ◌≡◌, refl, ◌⊎◌, inl, inr, ◌≢◌, arith,
}
use cyphal_service.Transport.Gsusb.Bittiming.{
  GsDeviceBtConst, GsDeviceBittiming, Search, next, found, panicked, total_tq, wrap, rounded_brp,
  split_timing, try_brp, try_segments, over_tseg2, over_tseg1, compute_bittiming,
}

Search-cases :
    (s : Search) → ((s ≡ next) ⊎ ((t : GsDeviceBittiming) × (s ≡ found t))) ⊎ (s ≡ panicked)
Search-cases next = inl (inl refl)
Search-cases (found t) = inl (inr (t, refl))
Search-cases panicked = inr refl

-- The timing gives the bit rate, and each of its fields lies within the device's limits.
pub record IsTimingFor (bitrate : ℕ) (bt : GsDeviceBtConst) (t : GsDeviceBittiming) : Type 0 where
  pub exact : bt.fclk_can / t.brp / wrap (1 + t.prop_seg + t.phase_seg1 + t.phase_seg2) ≡ bitrate
  pub tseg1_low : bt.tseg1_min ≤ t.prop_seg + t.phase_seg1
  pub tseg1_high : t.prop_seg + t.phase_seg1 ≤ bt.tseg1_max
  pub tseg2_low : bt.tseg2_min ≤ t.phase_seg2
  pub tseg2_high : t.phase_seg2 ≤ bt.tseg2_max
  pub brp_pos : 0 < t.brp
  pub brp_low : bt.brp_min ≤ t.brp
  pub brp_high : t.brp ≤ bt.brp_max
  pub even_split : (t.phase_seg1 ≤ t.prop_seg) × (t.prop_seg ≤ t.phase_seg1 + 1)
  pub sjw_high : (t.sjw ≤ 1) × (t.sjw ≤ bt.sjw_max)

-- What the divisor's test lets through.
try_brp-found :
    (bitrate : ℕ) (bt : GsDeviceBtConst) (tseg1 tseg2 brp : ℕ) (t : GsDeviceBittiming)
    → try_brp bitrate bt tseg1 tseg2 brp ≡ found t
    → (bt.brp_min ≤ brp)
      × (brp ≤ bt.brp_max)
      × (0 < brp)
      × (bt.fclk_can / brp / total_tq tseg1 tseg2 ≡ bitrate)
      × (t ≡ split_timing bt tseg1 tseg2 brp)
unfolding try_brp
try_brp-found bitrate bt tseg1 tseg2 brp t h = ground arith

try_segments-found :
    (bitrate : ℕ) (bt : GsDeviceBtConst) (tseg1 tseg2 : ℕ) (t : GsDeviceBittiming)
    → try_segments bitrate bt tseg1 tseg2 ≡ found t
    → (brp : ℕ) × (try_brp bitrate bt tseg1 tseg2 brp ≡ found t)
unfolding try_segments
try_segments-found bitrate bt tseg1 tseg2 t h =
    (rounded_brp bt (bt.fclk_can / bitrate / total_tq tseg1 tseg2), ground arith)

-- A candidate's segments within the device's limits.
abbrev InLimits : GsDeviceBtConst → ℕ → ℕ → Type 0
InLimits bt tseg1 tseg2 =
    (bt.tseg1_min ≤ tseg1)
    × (tseg1 ≤ bt.tseg1_max)
    × (bt.tseg2_min ≤ tseg2)
    × (tseg2 ≤ bt.tseg2_max)

split_timing-IsTimingFor :
    (bitrate : ℕ) (bt : GsDeviceBtConst) (tseg1 tseg2 brp : ℕ)
    → InLimits bt tseg1 tseg2
    → bt.brp_min ≤ brp
    → brp ≤ bt.brp_max
    → 0 < brp
    → bt.fclk_can / brp / total_tq tseg1 tseg2 ≡ bitrate
    → IsTimingFor bitrate bt (split_timing bt tseg1 tseg2 brp)
split_timing-IsTimingFor bitrate bt tseg1 tseg2 brp (a, b, c, d) low high positive actual =
    let total : wrap (1 + (tseg1 - tseg1 / 2) + tseg1 / 2 + tseg2) ≡ total_tq tseg1 tseg2 =
      omega arith in
    record {
      exact = rw total actual;
      tseg1_low = omega arith;
      tseg1_high = omega arith;
      tseg2_low = c;
      tseg2_high = d;
      brp_pos = positive;
      brp_low = low;
      brp_high = high;
      even_split = (omega arith, omega arith);
      sjw_high = (omega arith, omega arith);
    }

try_segments-IsTimingFor :
    (bitrate : ℕ) (bt : GsDeviceBtConst) (tseg1 tseg2 : ℕ) (t : GsDeviceBittiming)
    → InLimits bt tseg1 tseg2
    → try_segments bitrate bt tseg1 tseg2 ≡ found t
    → IsTimingFor bitrate bt t
try_segments-IsTimingFor bitrate bt tseg1 tseg2 t inside h =
    let (brp, tried) = try_segments-found bitrate bt tseg1 tseg2 t h in
    let (low, high, positive, actual, same) = try_brp-found bitrate bt tseg1 tseg2 brp t tried in
    rw same (split_timing-IsTimingFor bitrate bt tseg1 tseg2 brp inside low high positive actual)

module _ (bitrate : ℕ) (bt : GsDeviceBtConst) where
  over_tseg2-IsTimingFor :
      (tseg1 rounds : ℕ) (t : GsDeviceBittiming)
      → bt.tseg1_min ≤ tseg1
      → tseg1 ≤ bt.tseg1_max
      → rounds ≤ bt.tseg2_max + 1 - bt.tseg2_min
      → over_tseg2 bitrate bt tseg1 rounds ≡ found t
      → IsTimingFor bitrate bt t
  unfolding over_tseg2
  over_tseg2-IsTimingFor tseg1 zero t low high left h = cc
  over_tseg2-IsTimingFor tseg1 (suc rounds) t low high left h =
      elim (Search-cases (try_segments bitrate bt tseg1 (bt.tseg2_min + rounds))) [
        | inl (inl e) ↦ over_tseg2-IsTimingFor tseg1 rounds t low high (omega arith) (ground arith)
        | inl (inr (u, e)) ↦
            try_segments-IsTimingFor bitrate bt tseg1 (bt.tseg2_min + rounds) t
              (low, high, omega arith, omega arith) (ground arith)
        | inr e ↦ absurd (ground arith)
      ]

  over_tseg1-IsTimingFor :
      (rounds : ℕ) (t : GsDeviceBittiming)
      → rounds ≤ bt.tseg1_max + 1 - bt.tseg1_min
      → over_tseg1 bitrate bt rounds ≡ found t
      → IsTimingFor bitrate bt t
  unfolding over_tseg1
  over_tseg1-IsTimingFor zero t left h = cc
  over_tseg1-IsTimingFor (suc rounds) t left h =
      let width = bt.tseg2_max + 1 - bt.tseg2_min in
      elim (Search-cases (over_tseg2 bitrate bt (bt.tseg1_min + rounds) width)) [
        | inl (inl e) ↦ over_tseg1-IsTimingFor rounds t (omega arith) (ground arith)
        | inl (inr (u, e)) ↦
            over_tseg2-IsTimingFor (bt.tseg1_min + rounds) width t (omega arith) (omega arith)
              (omega arith) (ground arith)
        | inr e ↦ absurd (ground arith)
      ]

  -- A timing that is returned gives exactly the bit rate asked for, and keeps every field within
  -- the limits that the device states.
  pub compute_bittiming-IsTimingFor :
      (t : GsDeviceBittiming) → compute_bittiming bitrate bt ≡ found t → IsTimingFor bitrate bt t
  unfolding compute_bittiming
  compute_bittiming-IsTimingFor t h =
      over_tseg1-IsTimingFor (bt.tseg1_max + 1 - bt.tseg1_min) t (omega arith) h

  try_brp-safe :
      (tseg1 tseg2 brp : ℕ) → 0 < bt.brp_min → try_brp bitrate bt tseg1 tseg2 brp ≢ panicked
  unfolding try_brp
  try_brp-safe tseg1 tseg2 brp c h = ground arith

  try_segments-safe :
      (tseg1 tseg2 : ℕ)
      → 0 < bitrate
      → 0 < bt.brp_min
      → try_segments bitrate bt tseg1 tseg2 ≢ panicked
  unfolding try_segments
  try_segments-safe tseg1 tseg2 b c h = ground (
    arith,
    try_brp-safe tseg1 tseg2 (rounded_brp bt (bt.fclk_can / bitrate / total_tq tseg1 tseg2)) c,
  )

  over_tseg2-safe :
      (tseg1 rounds : ℕ)
      → 0 < bitrate
      → 0 < bt.brp_min
      → over_tseg2 bitrate bt tseg1 rounds ≢ panicked
  unfolding over_tseg2
  over_tseg2-safe tseg1 zero b c h = cc
  over_tseg2-safe tseg1 (suc rounds) b c h =
      ground (
        arith,
        try_segments-safe tseg1 (bt.tseg2_min + rounds) b c,
        over_tseg2-safe tseg1 rounds b c,
      )

  over_tseg1-safe :
      (rounds : ℕ) → 0 < bitrate → 0 < bt.brp_min → over_tseg1 bitrate bt rounds ≢ panicked
  unfolding over_tseg1
  over_tseg1-safe zero b c h = cc
  over_tseg1-safe (suc rounds) b c h = ground (
    arith,
    over_tseg2-safe (bt.tseg1_min + rounds) (bt.tseg2_max + 1 - bt.tseg2_min) b c,
    over_tseg1-safe rounds b c,
  )

  -- The search divides by zero for no positive bit rate, on a device whose smallest divisor is
  -- positive.
  pub compute_bittiming-safe :
      0 < bitrate → 0 < bt.brp_min → compute_bittiming bitrate bt ≢ panicked
  unfolding compute_bittiming
  compute_bittiming-safe b c = over_tseg1-safe (bt.tseg1_max + 1 - bt.tseg1_min) b c
