-- ===== src/Network/Tests.antt =====
-- The theorems about network/network.c at concrete data and calls.
use blockos.Prelude.{ℕ, ◌≡◌, refl, ◌++◌, ◌%◌, ◌/◌, List, [], ◌∷◌, pos, arith}
use blockos.Network.{net_checksum, network_init, socket_send}
use blockos.Network.Checksum.{net_checksum_verifies}
use blockos.Network.Sockets.{creates, connects, closes, after, linked, socket_send-after}

abbrev packet : List ℕ
packet = 255 ∷ 255 ∷ 1 ∷ 2 ∷ []

net_checksum_verifies_example :
    net_checksum (packet ++ net_checksum packet % 256 ∷ net_checksum packet / 256 ∷ []) ≡ 0
net_checksum_verifies_example = net_checksum_verifies 2 packet (omega arith) refl (omega arith)

-- Socket 3 was never created.
socket_send-after_example :
    socket_send
      (after network_init.sockets (creates 0 ∷ connects (pos 3) 1 80 ∷ closes (pos 0) ∷ []))
      (pos 3)
      10
    ≡ pos 10
unfolding linked
socket_send-after_example =
    socket_send-after (creates 0 ∷ connects (pos 3) 1 80 ∷ closes (pos 0) ∷ []) 3 10 (omega arith)
