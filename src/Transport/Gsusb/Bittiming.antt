-- ===== src/Transport/Gsusb/Bittiming.antt =====
-- src/transport/can_gsusb.rs: `compute_bittiming`. A u32 wraps at 2 ^ 32, as it does in a release
-- build (a debug build panics there), and a division by zero panics in either.
pub mod Sound
use cyphal_service.Common.{
  ℕ, zero, suc, ◌+◌, ◌-◌, ◌*◌, ◌/◌, ◌%◌, ◌^◌, min, max, Bool, true, false, ◌||◌, Option, none, some,
  ltb, ◌==◌, if◌then◌else◌,
}

pub record GsDeviceBtConst : Type 0 where
  pub feature : ℕ
  pub fclk_can : ℕ
  pub tseg1_min : ℕ
  pub tseg1_max : ℕ
  pub tseg2_min : ℕ
  pub tseg2_max : ℕ
  pub sjw_max : ℕ
  pub brp_min : ℕ
  pub brp_max : ℕ
  pub brp_inc : ℕ

pub record GsDeviceBittiming : Type 0 where
  pub prop_seg : ℕ
  pub phase_seg1 : ℕ
  pub phase_seg2 : ℕ
  pub sjw : ℕ
  pub brp : ℕ

-- A step of the search: `next` is `continue`, `found t` is `return Some(t)`.
pub data Search : Type 0 where
  next : Search
  found : GsDeviceBittiming → Search
  panicked : Search

abbrev pub wrap : ℕ → ℕ
wrap n = n % 2 ^ 32

abbrev pub total_tq : ℕ → ℕ → ℕ
total_tq tseg1 tseg2 = wrap (wrap (1 + tseg1) + tseg2)

-- Round to a multiple of the increment.
abbrev pub rounded_brp : GsDeviceBtConst → ℕ → ℕ
rounded_brp bt brp_exact =
    let inc = max bt.brp_inc 1 in wrap (wrap (brp_exact + inc / 2) / inc * inc)

abbrev pub split_timing : GsDeviceBtConst → ℕ → ℕ → ℕ → GsDeviceBittiming
split_timing bt tseg1 tseg2 brp = record {
  prop_seg = tseg1 - tseg1 / 2;
  phase_seg1 = tseg1 / 2;
  phase_seg2 = tseg2;
  sjw = min 1 bt.sjw_max;
  brp = brp;
}

-- The body of the loops from the divisor on.
unfoldable pub try_brp : ℕ → GsDeviceBtConst → ℕ → ℕ → ℕ → Search
try_brp bitrate bt tseg1 tseg2 brp =
    if ltb brp bt.brp_min || ltb bt.brp_max brp
    then next
    else (if brp == 0
        then panicked
        else (if bt.fclk_can / brp / total_tq tseg1 tseg2 == bitrate
            then found (split_timing bt tseg1 tseg2 brp)
            else next))

-- The body of the loops.
unfoldable pub try_segments : ℕ → GsDeviceBtConst → ℕ → ℕ → Search
unfolding try_brp
try_segments bitrate bt tseg1 tseg2 =
    let brp_exact = bt.fclk_can / bitrate / total_tq tseg1 tseg2 in
    if total_tq tseg1 tseg2 == 0
    then next
    else (if bitrate == 0
        then panicked
        else (if brp_exact == 0
            then next
            else try_brp bitrate bt tseg1 tseg2 (rounded_brp bt brp_exact)))

-- `for tseg2 in (tseg2_min..=tseg2_max).rev()`: the rounds left, the next value being
-- tseg2_min + rounds - 1.
unfoldable pub over_tseg2 : ℕ → GsDeviceBtConst → ℕ → ℕ → Search
over_tseg2 bitrate bt tseg1 zero = next
over_tseg2 bitrate bt tseg1 (suc rounds) =
    elim (try_segments bitrate bt tseg1 (bt.tseg2_min + rounds)) [
      | next ↦ over_tseg2 bitrate bt tseg1 rounds
      | found t ↦ found t
      | panicked ↦ panicked
    ]

-- `for tseg1 in (tseg1_min..=tseg1_max).rev()`.
unfoldable pub over_tseg1 : ℕ → GsDeviceBtConst → ℕ → Search
over_tseg1 bitrate bt zero = next
over_tseg1 bitrate bt (suc rounds) =
    elim (over_tseg2 bitrate bt (bt.tseg1_min + rounds) (bt.tseg2_max + 1 - bt.tseg2_min)) [
      | next ↦ over_tseg1 bitrate bt rounds
      | found t ↦ found t
      | panicked ↦ panicked
    ]

-- `next` at the end stands for `None`.
unfoldable pub compute_bittiming : ℕ → GsDeviceBtConst → Search
compute_bittiming bitrate bt = over_tseg1 bitrate bt (bt.tseg1_max + 1 - bt.tseg1_min)
