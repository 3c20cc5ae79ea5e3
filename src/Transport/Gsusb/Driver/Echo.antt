-- ===== src/Transport/Gsusb/Driver/Echo.antt =====
-- src/transport/can_gsusb.rs: a frame that the driver sends and then reads back.
use mathlib.Core.List.{append-nil}
use cyphal_service.Common.{
  ℕ, zero, suc, ◌+◌, ◌-◌, ◌%◌, ◌^◌, ◌<◌, ◌≡◌, refl, ◌∙◌, ap, Bool, true, false, List, [], ◌∷◌,
  arith, length, take, ok,
}
use cyphal_service.Transport.Gsusb.Frame.{Frame, encode_frame}
use cyphal_service.Transport.Gsusb.Frame.RoundTrip.{length-padded, decode_frame-encode_frame}
use cyphal_service.Transport.Gsusb.Usb.{Usb}
use cyphal_service.Transport.Gsusb.Driver.{GsUsbDriver, filled}
use cyphal_service.Transport.Gsusb.Driver.Frames.{Nb, done, transmit, receive}

take-all : (n : ℕ) (xs : List ℕ) → length xs ≡ n → take n xs ≡ xs
take-all zero [] h = refl
take-all zero (x ∷ xs) h = let too_long : ⊥ = omega (arith, h) in elim too_long [ ]
take-all (suc n) [] h = refl
take-all (suc n) (x ∷ xs) h = ap (λ ys. x ∷ ys) (take-all n xs (omega (arith, h)))

filled-full : (n : ℕ) (bytes : List ℕ) → length bytes ≡ n → filled n bytes ≡ bytes
filled-full n bytes h =
    let none_left : n - length bytes ≡ 0 = omega (arith, h) in
    rw none_left (append-nil (take n bytes) ∙ take-all n bytes h)

length-encode_frame : (frame : Frame) (echo_id : ℕ) → length (encode_frame frame echo_id) ≡ 20
unfolding encode_frame
length-encode_frame frame echo_id = omega (arith, length-padded 8 frame.payload)

receive_echoed :
    (usb : Usb) (is_can_id : ℕ → Bool) (d : GsUsbDriver usb.Handle) (frame : Frame)
    (echo_id later : ℕ) (b : usb.Bus)
    → frame.id < 2 ^ 29
    → is_can_id frame.id ≡ true
    → length frame.payload < 256
    → (usb.read_bulk d.handle d.bulk_in_endpoint 20 b).0 ≡ ok (encode_frame frame echo_id)
    → (receive usb is_can_id d later b).0
      ≡ done (record { timestamp = later; id = frame.id; payload = take 8 frame.payload })
unfolding receive
receive_echoed usb is_can_id d frame echo_id later b small accepted short read =
    rw
      (
        read,
        filled-full 20 (encode_frame frame echo_id) (length-encode_frame frame echo_id),
        decode_frame-encode_frame is_can_id frame echo_id later small accepted short,
      )
      refl

module _ (usb : Usb) (is_before : ℕ → ℕ → Bool) (is_can_id : ℕ → Bool) (d : GsUsbDriver usb.Handle)
    (frame : Frame) (now later n : ℕ) (b : usb.Bus) where
  abbrev sent : Nb (Unit {0}) × GsUsbDriver usb.Handle × usb.Bus
  sent = transmit usb is_before d frame now b

  -- Where the device accepts a frame and echoes it, the driver receives its own frame as though
  -- another node had sent it: with its ID, the first eight bytes of its payload, and the time of
  -- reception. The frame's time must not have passed, its ID be a CAN ID of 29 bits, and its payload
  -- shorter than 256 bytes; sending counts one frame, modulo 2 ^ 32.
  pub receive-transmit :
      is_before frame.timestamp now ≡ false
      → frame.id < 2 ^ 29
      → is_can_id frame.id ≡ true
      → length frame.payload < 256
      → (usb.write_bulk d.handle d.bulk_out_endpoint (encode_frame frame d.echo_counter) b).0 ≡ ok n
      → (usb.read_bulk sent.1.handle sent.1.bulk_in_endpoint 20 sent.2).0
        ≡ ok (encode_frame frame d.echo_counter)
      → (sent.0 ≡ done tt)
        × (sent.1.echo_counter ≡ (d.echo_counter + 1) % 2 ^ 32)
        × ((receive usb is_can_id sent.1 later sent.2).0
            ≡ done (record { timestamp = later; id = frame.id; payload = take 8 frame.payload }))
  unfolding transmit
  receive-transmit on_time small accepted short written echoed = (
    rw (on_time, written, transmit) refl,
    rw (on_time, transmit) refl,
    receive_echoed usb is_can_id sent.1 frame d.echo_counter later sent.2 small accepted short
        echoed,
  )
