-- ===== src/Transport/Serial/Port.antt =====
-- src/transport/serial.rs: `PortDriver`, the bytes of a serial port.
use cyphal_service.Common.{
  ℕ, Bool, true, false, ◌||◌, List, [], ◌∷◌, if◌then◌else◌, Result, ok, err,
}

-- `std::io::ErrorKind`, as far as the driver tells it.
pub data IoKind : Type 0 where
  would_block timed_out other_kind : IoKind

abbrev pub is_would_block : IoKind → Bool
is_would_block would_block = true
is_would_block timed_out = false
is_would_block other_kind = false

abbrev pub is_timed_out : IoKind → Bool
is_timed_out would_block = false
is_timed_out timed_out = true
is_timed_out other_kind = false

-- `nb::Result`.
pub data Nb (A : Type 0) : Type 0 where
  done : A → Nb A
  blocked : Nb A
  failed : IoKind → Nb A

-- A serial port: `write_all`, and `read` into a buffer of the given size.
pub record SerialPort : Type 1 where
  pub Port : Type 0
  pub write_all : Port → List ℕ → Result (Unit {0}) IoKind × Port
  pub read : Port → ℕ → Result (List ℕ) IoKind × Port

module _ (serial : SerialPort) where
  unfoldable pub send_byte : serial.Port → ℕ → Nb (Unit {0}) × serial.Port
  send_byte port byte =
      let r = serial.write_all port (byte ∷ []) in
      (elim r.0 [ ok u ↦ done tt | err e ↦ if is_would_block e then blocked else failed e ], r.1)

  -- A read of no byte blocks too.
  unfoldable pub receive_byte : serial.Port → Nb ℕ × serial.Port
  receive_byte port =
      let r = serial.read port 1 in
      (
        elim r.0 [
          | ok bytes ↦ elim bytes [
            | [] ↦ blocked
            | b ∷ rest ↦ elim rest [ [] ↦ done b | c ∷ more ↦ blocked ]
          ]
          | err e ↦ if is_would_block e || is_timed_out e then blocked else failed e
        ],
        r.1,
      )
