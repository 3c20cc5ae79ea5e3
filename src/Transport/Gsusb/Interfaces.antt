-- ===== src/Transport/Gsusb/Interfaces.antt =====
-- src/transport/can_gsusb.rs: which interface and endpoints of a device the driver uses.
pub mod Directed
use cyphal_service.Common.{
  ℕ, ◌≤◌, ◌<◌, ◌≡◌, refl, subst, ◌⊎◌, Bool-cases, Bool, true, false, not, ◌||◌, Option, none, some,
  List, [], ◌∷◌, ◌++◌, arith, ◌==◌, if◌then◌else◌, All, Result, ok, err, Option-cases, inl, inr,
}
use cyphal_service.Transport.Gsusb.Usb.{
  UsbError, Direction, dir_in, dir_out, Endpoint, Descriptor, Usb,
}

pub record GsUsbInterfaceInfo : Type 0 where
  pub interface_number : ℕ
  pub bulk_in_endpoint : ℕ
  pub bulk_out_endpoint : ℕ

-- BULK_IN_ENDPOINT, BULK_OUT_ENDPOINT and BULK_OUT_ENDPOINT_ALT.
abbrev pub bulk_in : ℕ
bulk_in = 0x81

abbrev pub bulk_out : ℕ
bulk_out = 0x01

abbrev pub bulk_out_alt : ℕ
bulk_out_alt = 0x02

-- The endpoints that the loop has found so far: the one to read, and the one to write.
abbrev pub Found : Type 0
Found = Option ℕ × Option ℕ

-- The loop's body, where only the usual addresses count.
abbrev pub note_expected : Endpoint → Found → Found
note_expected e (i, o) = if not e.is_bulk then (i, o) else elim e.direction [
  | dir_in ↦ if e.address == bulk_in then (some e.address, o) else (i, o)
  | dir_out ↦
      if e.address == bulk_out || e.address == bulk_out_alt then (i, some e.address) else (i, o)
]

-- The loop's body, where every bulk endpoint counts.
abbrev pub note_any : Endpoint → Found → Found
note_any e (i, o) =
    if not e.is_bulk
    then (i, o)
    else elim e.direction [ dir_in ↦ (some e.address, o) | dir_out ↦ (i, some e.address) ]

unfoldable pub scan : (Endpoint → Found → Found) → List Endpoint → Found → Found
scan note [] found = found
scan note (e ∷ es) found = scan note es (note e found)

-- The interface of a descriptor in which both endpoints were found.
abbrev pub completed : Descriptor → Found → Option GsUsbInterfaceInfo
completed d (none, o) = none
completed d (some i, none) = none
completed d (some i, some o) =
    some (record {
      interface_number = d.interface_number;
      bulk_in_endpoint = i;
      bulk_out_endpoint = o;
    })

-- The first pass: vendor-specific descriptors with the usual endpoints.
unfoldable pub first_expected : List Descriptor → Option GsUsbInterfaceInfo
unfolding scan
first_expected [] = none
first_expected (d ∷ ds) =
    let rest = first_expected ds in
    if not (d.class_code == 0xff)
    then rest
    else elim (completed d (scan note_expected d.endpoints (none, none))) [
      | some info ↦ some info
      | none ↦ rest
    ]

-- The second pass: any descriptor with an endpoint of each direction.
unfoldable pub first_any : List Descriptor → Option GsUsbInterfaceInfo
unfolding scan
first_any [] = none
first_any (d ∷ ds) =
    let rest = first_any ds in
    elim (completed d (scan note_any d.endpoints (none, none))) [
      | some info ↦ some info
      | none ↦ rest
    ]

unfoldable pub all_descriptors : List (List Descriptor) → List Descriptor
all_descriptors [] = []
all_descriptors (ds ∷ rest) = ds ++ all_descriptors rest

-- The result of a pass, or else what comes after it.
abbrev pub or_then : Option GsUsbInterfaceInfo → GsUsbInterfaceInfo → GsUsbInterfaceInfo
or_then none next = next
or_then (some info) next = info

abbrev pub default_interface : GsUsbInterfaceInfo
default_interface = record {
  interface_number = 0;
  bulk_in_endpoint = bulk_in;
  bulk_out_endpoint = bulk_out_alt;
}

unfoldable pub choose_interface : List Descriptor → GsUsbInterfaceInfo
unfolding first_expected first_any
choose_interface ds = or_then (first_expected ds) (or_then (first_any ds) default_interface)

unfoldable pub find_gsusb_interface :
    (usb : Usb) → usb.Bus → usb.Device → Result GsUsbInterfaceInfo UsbError
unfolding choose_interface all_descriptors
find_gsusb_interface usb b device = elim (usb.active_config b device) [
  | err e ↦ err e
  | ok interfaces ↦ ok (choose_interface (all_descriptors interfaces))
]
