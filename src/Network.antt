-- ===== src/Network.antt =====
-- network/network.c and network/network.h: the checksum, the counters of an interface and the table
-- of sockets. Pointers that the calls test for NULL are valid here.
pub mod Checksum
pub mod Sockets
pub mod Tests
use blockos.Prelude.{
  ℕ, zero, suc, ◌+◌, ◌-◌, ◌*◌, ◌/◌, ◌%◌, ◌^◌, Bool, true, false, not, ◌||◌, List, [], ◌∷◌, ◌++◌,
  Option, none, some, ℤ, pos, negsuc, minus_one, if◌then◌else◌, ◌==◌, ltb, replicate, modify, take,
}
use blockos.Numbers.{uint_to_str}
use blockos.Slots.{slot, slot_set, first_free}

abbrev pub max_sockets : ℕ
max_sockets = 32

-- `socket_t`; an `int` that is stored and never computed with is a number.
pub record Socket : Type 0 where
  pub active : Bool
  pub id : ℕ
  pub type : ℕ
  pub local_ip : ℕ
  pub local_port : ℕ
  pub remote_ip : ℕ
  pub remote_port : ℕ
  pub connected : Bool

-- `network_t`
pub record Network : Type 0 where
  pub mac : List ℕ
  pub ip : ℕ
  pub netmask : ℕ
  pub gateway : ℕ
  pub dns : ℕ
  pub connected : Bool
  pub packet_count : ℕ
  pub packets_sent : ℕ
  pub packets_recv : ℕ
  pub bytes_sent : ℕ
  pub bytes_recv : ℕ
  pub sockets : List Socket

-- The words of the data, in little-endian order, summed up in 32 bits; a last odd byte counts alone.
unfoldable pub sum_words : ℕ → List ℕ → ℕ
sum_words sum [] = sum
sum_words sum (b ∷ []) = (sum + b) % 2 ^ 32
sum_words sum (lo ∷ hi ∷ data') = sum_words ((sum + (lo + 256 * hi)) % 2 ^ 32) data'

-- while (sum >> 16) sum = (sum & 0xFFFF) + (sum >> 16);
-- The first argument bounds the rounds.
unfoldable pub fold_carries : ℕ → ℕ → ℕ
fold_carries zero sum = sum
fold_carries (suc rounds) sum =
    let rest = fold_carries rounds (sum % 2 ^ 16 + sum / 2 ^ 16) in
    if sum / 2 ^ 16 == 0 then sum else rest

-- Two rounds are enough for a sum of 32 bits.
unfoldable pub net_checksum : List ℕ → ℕ
unfolding sum_words fold_carries
net_checksum data' = 2 ^ 16 - 1 - fold_carries 2 (sum_words 0 data') % 2 ^ 16

abbrev pub no_socket : Socket
no_socket = record {
  active = false;
  id = 0;
  type = 0;
  local_ip = 0;
  local_port = 0;
  remote_ip = 0;
  remote_port = 0;
  connected = false;
}

-- a.b.c.d
abbrev ip_of : ℕ → ℕ → ℕ → ℕ → ℕ
ip_of a b c d = a * 2 ^ 24 + b * 2 ^ 16 + c * 2 ^ 8 + d

-- `*net`, which is also what `g_net` becomes.
unfoldable pub network_init : Network
network_init = record {
  mac = 82 ∷ 84 ∷ 0 ∷ 18 ∷ 52 ∷ 86 ∷ [];
  ip = ip_of 192 168 1 100;
  netmask = ip_of 255 255 255 0;
  gateway = ip_of 192 168 1 1;
  dns = ip_of 8 8 8 8;
  connected = false;
  packet_count = 0;
  packets_sent = 0;
  packets_recv = 0;
  bytes_sent = 0;
  bytes_recv = 0;
  sockets = replicate max_sockets no_socket;
}

-- snprintf(buf, 16, "%u.%u.%u.%u", ...)
unfoldable pub net_ip_to_str : ℕ → List ℕ
net_ip_to_str ip = take 15 (
    uint_to_str (ip / 2 ^ 24 % 256) 10
    ++ b'.' ∷ uint_to_str (ip / 2 ^ 16 % 256) 10
    ++ b'.' ∷ uint_to_str (ip / 2 ^ 8 % 256) 10
    ++ b'.' ∷ uint_to_str (ip % 256) 10)

unfoldable pub network_send : Network → ℕ → Network × Bool
network_send net size = if size == 0 || not net.connected then (net, false) else (
  record net {
    packets_sent = (net.packets_sent + 1) % 2 ^ 32;
    bytes_sent = (net.bytes_sent + size) % 2 ^ 32;
  },
  true,
)

-- It never has a packet.
unfoldable pub network_recv : Network → Network × Bool
network_recv net =
    if net.connected
    then (record net { packets_recv = (net.packets_recv + 1) % 2 ^ 32 }, false)
    else (net, false)

create_at : List Socket → Option ℕ → ℕ → List Socket × ℤ
create_at t none type = (t, minus_one)
create_at t (some i) type =
    (modify t i (λ s. record s { active = true; type = type; id = i }), pos i)

-- The other fields keep what they hold.
unfoldable pub socket_create : List Socket → ℕ → List Socket × ℤ
unfolding create_at
socket_create t type = create_at t (first_free (λ s. s.active) t) type

bind_at : List Socket → ℤ → Option Socket → ℕ → ℕ → List Socket × Bool
bind_at t sock none ip port = (t, false)
bind_at t sock (some s) ip port =
    (slot_set t sock (record s { local_ip = ip; local_port = port }), true)

unfoldable pub socket_bind : List Socket → ℤ → ℕ → ℕ → List Socket × Bool
unfolding bind_at
socket_bind t sock ip port = bind_at t sock (slot t sock) ip port

connect_at : List Socket → ℤ → Option Socket → ℕ → ℕ → List Socket × Bool
connect_at t sock none ip port = (t, false)
connect_at t sock (some s) ip port =
    (slot_set t sock (record s { remote_ip = ip; remote_port = port; connected = true }), true)

-- It does not ask whether the socket was created.
unfoldable pub socket_connect : List Socket → ℤ → ℕ → ℕ → List Socket × Bool
unfolding connect_at
socket_connect t sock ip port = connect_at t sock (slot t sock) ip port

close_at : List Socket → ℤ → Option Socket → List Socket × Bool
close_at t sock none = (t, false)
close_at t sock (some s) = (slot_set t sock no_socket, true)

unfoldable pub socket_close : List Socket → ℤ → List Socket × Bool
unfolding close_at
socket_close t sock = close_at t sock (slot t sock)

-- (int)size
abbrev pub to_int : ℕ → ℤ
to_int size = if ltb size (2 ^ 31) then pos size else negsuc (2 ^ 32 - size - 1)

send_at : Option Socket → ℕ → ℤ
send_at none size = minus_one
send_at (some s) size = if s.connected then to_int size else minus_one

unfoldable pub socket_send : List Socket → ℤ → ℕ → ℤ
unfolding send_at
socket_send t sock size = send_at (slot t sock) size

recv_at : Option Socket → ℤ
recv_at none = minus_one
recv_at (some s) = pos 0

unfoldable pub socket_recv : List Socket → ℤ → ℤ
unfolding recv_at
socket_recv t sock = recv_at (slot t sock)
