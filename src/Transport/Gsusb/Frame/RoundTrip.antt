-- ===== src/Transport/Gsusb/Frame/RoundTrip.antt =====
-- src/transport/can_gsusb.rs: encoding and decoding a frame are inverse, and what decoding admits.
use cyphal_service.Common.{
  ℕ, zero, suc, ◌+◌, ◌-◌, ◌≤◌, ◌<◌, ◌%◌, ◌^◌, min, ◌≡◌, ap, ◌∙◌, Bool, true, false, some, List, [],
  ◌∷◌, ◌++◌, arith, length, take, drop, replicate, length-replicate, length-take-le,
}
use cyphal_service.Transport.Gsusb.Frame.{
  Frame, encode_frame, decode_frame, has_flag, rtr_flag, err_flag, eff_flag, can_id_of, with_flag,
  byte_at,
}

pub length-padded : (n : ℕ) (xs : List ℕ) → length (take n xs ++ replicate (n - length xs) 0) ≡ n
length-padded zero xs = let e : 0 - length xs ≡ 0 = omega arith in rw e
length-padded (suc n) [] =
    let e : suc n - 0 ≡ suc n = omega arith in rw e (length-replicate (suc n) 0)
length-padded (suc n) (x ∷ xs) =
    let e : suc n - suc (length xs) ≡ n - length xs = omega arith in
    rw e (ap suc (length-padded n xs))

take-padded : (n : ℕ) (xs ys : List ℕ) → take (min (length xs) n) (take n xs ++ ys) ≡ take n xs
take-padded zero xs ys = let e : min (length xs) 0 ≡ 0 = omega arith in rw e
take-padded (suc n) [] ys = let e : min 0 (suc n) ≡ 0 = omega arith in rw e
take-padded (suc n) (x ∷ xs) ys =
    let e : min (suc (length xs)) (suc n) ≡ suc (min (length xs) n) = omega arith in
    rw e (ap (◌∷◌ x) (take-padded n xs ys))

with_flag-eff : (id : ℕ) → id < 2 ^ 29 → with_flag id eff_flag ≡ id + 2 ^ 31
with_flag-eff id h = ground arith

-- A buffer of an extended frame decodes to its fields.
decode_frame_extended :
    (is_can_id : ℕ → Bool) (buf : List ℕ) (now id : ℕ)
    → 20 ≤ length buf
    → can_id_of buf ≡ id + 2 ^ 31
    → id < 2 ^ 29
    → is_can_id id ≡ true
    → decode_frame is_can_id buf now
      ≡ some (record {
        timestamp = now;
        id = id;
        payload = take (min (byte_at buf 8) 8) (drop 12 buf);
      })
unfolding decode_frame
decode_frame_extended is_can_id buf now id long e small accepted =
    let raw : (id + 2 ^ 31) % 2 ^ 29 ≡ id = omega arith in
    rw e (rw raw (rw accepted (ground arith)))

-- Decoding what was encoded gives the frame back, under the time of reception, with the first eight
-- bytes of its payload: for a 29-bit ID that is accepted as a CAN ID, and a payload of fewer than
-- 256 bytes.
pub decode_frame-encode_frame :
    (is_can_id : ℕ → Bool) (frame : Frame) (echo_id now : ℕ)
    → frame.id < 2 ^ 29
    → is_can_id frame.id ≡ true
    → length frame.payload < 256
    → decode_frame is_can_id (encode_frame frame echo_id) now
      ≡ some (record { timestamp = now; id = frame.id; payload = take 8 frame.payload })
unfolding encode_frame
decode_frame-encode_frame is_can_id frame echo_id now small accepted short =
    let w = with_flag-eff frame.id small in
    let full = length-padded 8 frame.payload in
    let dlc : length frame.payload % 256 ≡ length frame.payload = omega arith in
    decode_frame_extended is_can_id (encode_frame frame echo_id) now frame.id (omega (arith, full))
      (rw w (omega arith)) small accepted
    ∙ rw dlc (rw (take-padded 8 frame.payload (replicate (8 - length frame.payload) 0)))

-- A buffer that decodes to a frame is full, and its ID has the extended flag and neither the remote
-- nor the error flag; the frame has an accepted ID below 2 ^ 29, the time of reception, and at most
-- eight bytes.
pub decode_frame-some :
    (is_can_id : ℕ → Bool) (buf : List ℕ) (now : ℕ) (frame : Frame)
    → decode_frame is_can_id buf now ≡ some frame
    → (20 ≤ length buf)
      × (has_flag (can_id_of buf) eff_flag ≡ true)
      × (has_flag (can_id_of buf) rtr_flag ≡ false)
      × (has_flag (can_id_of buf) err_flag ≡ false)
      × (is_can_id frame.id ≡ true)
      × (frame.id < 2 ^ 29)
      × (frame.timestamp ≡ now)
      × (length frame.payload ≤ 8)
unfolding decode_frame
decode_frame-some is_can_id buf now frame h =
    ground (arith, length-take-le (min (byte_at buf 8) 8) (drop 12 buf))
