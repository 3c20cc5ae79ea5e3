-- ===== src/Transport/Gsusb/Frame.antt =====
-- src/transport/can_gsusb.rs: a CAN frame in the device's 20-byte host format. Whether a number is
-- a CAN ID is decided by `canadensis_can`, and is an argument.
pub mod RoundTrip
use cyphal_service.Common.{
  ℕ, zero, suc, ◌+◌, ◌-◌, ◌*◌, ◌/◌, ◌%◌, ◌^◌, min, Bool, true, false, not, ◌||◌, Option, none, some,
  List, [], ◌∷◌, ◌++◌, ltb, ◌==◌, if◌then◌else◌, length, take, drop, replicate,
}

-- `canadensis_can::Frame`.
pub record Frame : Type 0 where
  pub timestamp : ℕ
  pub id : ℕ
  pub payload : List ℕ

-- GS_HOST_FRAME_SIZE
abbrev pub gs_host_frame_size : ℕ
gs_host_frame_size = 20

-- The flags GS_CAN_EFF_FLAG, GS_CAN_RTR_FLAG and GS_CAN_ERR_FLAG, as the numbers of their bits.
abbrev pub eff_flag : ℕ
eff_flag = 31

abbrev pub rtr_flag : ℕ
rtr_flag = 30

abbrev pub err_flag : ℕ
err_flag = 29

-- `w & (1 << bit) != 0`.
abbrev pub has_flag : ℕ → ℕ → Bool
has_flag w bit = w / 2 ^ bit % 2 == 1

-- `w | (1 << bit)`.
abbrev pub with_flag : ℕ → ℕ → ℕ
with_flag w bit = if has_flag w bit then w else w + 2 ^ bit

-- `u32::to_le_bytes`.
abbrev pub to_le_bytes : ℕ → List ℕ
to_le_bytes w = w % 256 ∷ w / 2 ^ 8 % 256 ∷ w / 2 ^ 16 % 256 ∷ w / 2 ^ 24 % 256 ∷ []

-- `buf[i]`, for an index that the caller knows to be in range.
abbrev pub byte_at : List ℕ → ℕ → ℕ
byte_at [] i = 0
byte_at (b ∷ bs) zero = b
byte_at (b ∷ bs) (suc i) = byte_at bs i

-- `u32::from_le_bytes(buf[4..8])`.
abbrev pub can_id_of : List ℕ → ℕ
can_id_of buf =
    byte_at buf 4 + 2 ^ 8 * byte_at buf 5 + 2 ^ 16 * byte_at buf 6 + 2 ^ 24 * byte_at buf 7

-- The first eight bytes of the payload, and zeros up to eight.
abbrev pub data_field : List ℕ → List ℕ
data_field payload = take 8 payload ++ replicate (8 - length payload) 0

unfoldable pub encode_frame : Frame → ℕ → List ℕ
encode_frame frame echo_id =
    to_le_bytes echo_id
    ++ (to_le_bytes (with_flag frame.id eff_flag)
        ++ (length frame.payload % 256 ∷ 0 ∷ 0 ∷ 0 ∷ data_field frame.payload))

-- `is_can_id` is `CanId::try_from(raw_id).is_ok()`.
unfoldable pub decode_frame : (ℕ → Bool) → List ℕ → ℕ → Option Frame
decode_frame is_can_id buf now =
    let can_id = can_id_of buf in
    let raw_id = can_id % 2 ^ 29 in
    let dlc = byte_at buf 8 in
    if ltb (length buf) gs_host_frame_size
    then none
    else (if has_flag can_id rtr_flag || has_flag can_id err_flag
        then none
        else (if not (has_flag can_id eff_flag)
            then none
            else (if is_can_id raw_id
                then some (record {
                  timestamp = now;
                  id = raw_id;
                  payload = take (min dlc 8) (drop 12 buf);
                })
                else none)))
