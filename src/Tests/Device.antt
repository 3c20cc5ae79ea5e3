-- ===== src/Tests/Device.antt =====
-- The theorems on the gs_usb device, applied to a frame and to the limits of a 48 MHz device.
use cyphal_service.Common.{
  ◌<◌, ◌≤◌, ◌^◌, ◌≡◌, refl, ◌≢◌, true, false, some, [], ◌∷◌, arith, ltb, length, take,
}
use cyphal_service.Transport.Gsusb.Frame.{
  Frame, encode_frame, decode_frame, has_flag, eff_flag, rtr_flag, err_flag, can_id_of,
}
use cyphal_service.Transport.Gsusb.Frame.RoundTrip.{decode_frame-encode_frame, decode_frame-some}
use cyphal_service.Transport.Gsusb.Bittiming.{
  GsDeviceBtConst, GsDeviceBittiming, found, panicked, compute_bittiming, over_tseg1, over_tseg2,
  try_segments, try_brp,
}
use cyphal_service.Transport.Gsusb.Bittiming.Sound.{
  IsTimingFor, compute_bittiming-IsTimingFor, compute_bittiming-safe,
}

abbrev pub heartbeat_frame : Frame
heartbeat_frame = record {
  timestamp = 3;
  id = 0x107D552A;
  payload = 1 ∷ 0 ∷ 0 ∷ 0 ∷ 0 ∷ 0 ∷ 0 ∷ 0xE0 ∷ [];
}

decode_frame-encode_frame_example :
    decode_frame (λ i. ltb i (2 ^ 29)) (encode_frame heartbeat_frame 0) 40
    ≡ some (record {
      timestamp = 40;
      id = heartbeat_frame.id;
      payload = take 8 heartbeat_frame.payload;
    })
decode_frame-encode_frame_example =
    decode_frame-encode_frame (λ i. ltb i (2 ^ 29)) heartbeat_frame 0 40 (omega arith) refl
      (omega arith)

heartbeat_decodes :
    decode_frame (λ i. ltb i (2 ^ 29)) (encode_frame heartbeat_frame 0) 3 ≡ some heartbeat_frame
unfolding decode_frame encode_frame
heartbeat_decodes = refl

decode_frame-some_example :
    (20 ≤ length (encode_frame heartbeat_frame 0))
    × (has_flag (can_id_of (encode_frame heartbeat_frame 0)) eff_flag ≡ true)
    × (has_flag (can_id_of (encode_frame heartbeat_frame 0)) rtr_flag ≡ false)
    × (has_flag (can_id_of (encode_frame heartbeat_frame 0)) err_flag ≡ false)
    × (ltb heartbeat_frame.id (2 ^ 29) ≡ true)
    × (heartbeat_frame.id < 2 ^ 29)
    × (heartbeat_frame.timestamp ≡ 3)
    × (length heartbeat_frame.payload ≤ 8)
decode_frame-some_example =
    decode_frame-some (λ i. ltb i (2 ^ 29)) (encode_frame heartbeat_frame 0) 3 heartbeat_frame
      heartbeat_decodes

abbrev candlelight : GsDeviceBtConst
candlelight = record {
  feature = 0;
  fclk_can = 48000000;
  tseg1_min = 1;
  tseg1_max = 16;
  tseg2_min = 1;
  tseg2_max = 8;
  sjw_max = 4;
  brp_min = 1;
  brp_max = 1024;
  brp_inc = 1;
}

-- The segments that the search meets first: 16 and 7, with a divisor of 2.
abbrev one_megabit : GsDeviceBittiming
one_megabit = record { prop_seg = 8; phase_seg1 = 8; phase_seg2 = 7; sjw = 1; brp = 2 }

one_megabit_found : compute_bittiming 1000000 candlelight ≡ found one_megabit
unfolding compute_bittiming over_tseg1 over_tseg2 try_segments try_brp
one_megabit_found = refl

compute_bittiming-IsTimingFor_example : IsTimingFor 1000000 candlelight one_megabit
compute_bittiming-IsTimingFor_example =
    compute_bittiming-IsTimingFor 1000000 candlelight one_megabit one_megabit_found

compute_bittiming-safe_example : compute_bittiming 1000000 candlelight ≢ panicked
compute_bittiming-safe_example =
    compute_bittiming-safe 1000000 candlelight (omega arith) (omega arith)
