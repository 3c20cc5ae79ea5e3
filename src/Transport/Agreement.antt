-- ===== src/Transport/Agreement.antt =====
-- src/transport: each transport has a transfer handler of its own; the four do the same.
use cyphal_service.Common.{◌≡◌, refl}
use cyphal_service.Pnp.Sqlite.{Sqlite}
use cyphal_service.Transport.Worker.{Cyphal, Worker, Transfer, message, request, response}
use cyphal_service.Transport.Gsusb.Worker.Transfers as GsusbTransfers
use cyphal_service.Transport.Socketcan.Transfers as SocketcanTransfers
use cyphal_service.Transport.Serial.Transfers as SerialTransfers
use cyphal_service.Transport.Udp.Transfers as UdpTransfers

-- The four transports handle every transfer alike: with the same result, in the same state.
pub handle_transfer_agree :
    (sq : Sqlite) (net : Cyphal) (w : Worker sq.Conn net.Node) (t : Transfer)
    → (GsusbTransfers.handle_transfer sq net w t ≡ UdpTransfers.handle_transfer sq net w t)
      × (SocketcanTransfers.handle_transfer sq net w t ≡ UdpTransfers.handle_transfer sq net w t)
      × (SerialTransfers.handle_transfer sq net w t ≡ UdpTransfers.handle_transfer sq net w t)
unfolding GsusbTransfers.handle_transfer SocketcanTransfers.handle_transfer
    SerialTransfers.handle_transfer UdpTransfers.handle_transfer
handle_transfer_agree sq net w (message m t) = (refl, refl, refl)
handle_transfer_agree sq net w request = (refl, refl, refl)
handle_transfer_agree sq net w (response m now) = (refl, refl, refl)
