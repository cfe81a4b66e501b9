-- ===== src/Net.antt =====
-- Network: the sockets for game datagrams and the cache of hardware addresses of src/net.c.
mod Queue
mod Checksum
mod Tests
use arcade_os.Base.{
  ℕ, zero, suc, ◌+◌, ◌-◌, ◌/◌, ◌%◌, ◌^◌, Bool, true, false, not, ◌&&◌, ◌||◌, Option, none, some,
  List, [], ◌∷◌, ◌++◌, ltb, leb, ◌==◌, if◌then◌else◌, length, get_or, set, take,
}
use arcade_os.Gamepad.{write_at}
use arcade_os.Session.{same_string}

abbrev pub udp_queue : ℕ
udp_queue = 8

abbrev pub udp_msg_max : ℕ
udp_msg_max = 512

abbrev pub arp_cache_size : ℕ
arp_cache_size = 4

abbrev pub http_port : ℕ
http_port = 80

abbrev pub udp_echo_port : ℕ
udp_echo_port = 7

abbrev pub dhcp_client_port : ℕ
dhcp_client_port = 68

abbrev pub beam_port : ℕ
beam_port = 7778

-- An entry of `udp_q`, whose `len` is the length of its data.
pub record Message : Type 0 where
  pub sport : ℕ
  pub sip : List ℕ
  pub bytes : List ℕ

pub record ArpEntry : Type 0 where
  pub valid : Bool
  pub ip : List ℕ
  pub mac : List ℕ

-- What is handed to the network card.
pub data Frame : Type 0 where
  datagram : List ℕ → List ℕ → ℕ → ℕ → List ℕ → Frame
  who_has : List ℕ → Frame

pub record Net : Type 0 where
  pub net_up : Bool
  pub udp_port : ℕ
  pub udp_q : ℕ → Message
  pub udp_head : ℕ
  pub udp_tail : ℕ
  pub arp_cache : List ArpEntry
  pub arp_next : ℕ
  pub sent : List Frame

abbrev pub no_address : ArpEntry
no_address = record { valid = false; ip = []; mac = [] }

unfoldable pub find_ip : List ℕ → List ArpEntry → Option ℕ
unfolding same_string
find_ip ip [] = none
find_ip ip (e ∷ es) =
    let rest = find_ip ip es in
    if e.valid && same_string e.ip ip
    then some 0
    else elim rest [ none ↦ none | some i ↦ some (suc i) ]

pub arp_entry : Net → ℕ → ArpEntry
arp_entry n i = get_or n.arp_cache i no_address

unfoldable pub learn_at : List ℕ → List ℕ → Net → Option ℕ → Net
unfolding arp_entry
learn_at ip mac n (some i) = record n {
  arp_cache = set n.arp_cache i (record (arp_entry n i) { mac = mac });
}
learn_at ip mac n none = record n {
  arp_cache = set n.arp_cache n.arp_next (record { valid = true; ip = ip; mac = mac });
  arp_next = (n.arp_next + 1) % arp_cache_size;
}

unfoldable pub arp_learn : List ℕ → List ℕ → Net → Net
unfolding find_ip learn_at
arp_learn ip mac n = learn_at ip mac n (find_ip ip n.arp_cache)

unfoldable pub mac_at : Net → Option ℕ → Option (List ℕ)
unfolding arp_entry
mac_at n none = none
mac_at n (some i) = some (arp_entry n i).mac

unfoldable pub arp_find : List ℕ → Net → Option (List ℕ)
unfolding find_ip mac_at
arp_find ip n = mac_at n (find_ip ip n.arp_cache)

-- A frame on its way out.
pub transmit : Frame → Net → Net
transmit f n = record n { sent = n.sent ++ f ∷ [] }

unfoldable pub enqueue : Message → Net → Net
enqueue m n = if leb udp_queue ((n.udp_tail + 2 ^ 32 - n.udp_head) % 2 ^ 32) then n else record n {
  udp_q = write_at n.udp_q (n.udp_tail % udp_queue) m;
  udp_tail = (n.udp_tail + 1) % 2 ^ 32;
}

-- The ends of a packet: the addresses of its sender, and the ports.
pub record Ends : Type 0 where
  pub src_mac : List ℕ
  pub src_ip : List ℕ
  pub src_port : ℕ
  pub dst_port : ℕ

-- The two protocols that have ports of their own in the kernel.
module _ (dhcp_input : List ℕ → Net → Net) (beam_input : List ℕ → List ℕ → Net → Net) where
  -- `ulen` is the length field of the datagram, `payload` all that is behind its header.
  unfoldable pub handle_udp : Ends → ℕ → List ℕ → Net → Net
  unfolding arp_learn transmit enqueue
  handle_udp e ulen payload n =
      if ltb ulen 8 || ltb (length payload + 8) ulen
      then n
      else (let bytes = take (ulen - 8) payload in
          let known = arp_learn e.src_ip e.src_mac n in
          if e.dst_port == dhcp_client_port
          then dhcp_input bytes known
          else if e.dst_port == udp_echo_port
          then transmit
              (datagram e.src_mac e.src_ip udp_echo_port e.src_port (take udp_msg_max bytes)) known
          else if e.dst_port == beam_port
          then beam_input e.src_ip bytes known
          else if n.udp_port == 0 || not (e.dst_port == n.udp_port)
          then known
          else if ltb udp_msg_max (length bytes)
          then known
          else enqueue (record { sport = e.src_port; sip = e.src_ip; bytes = bytes }) known)

-- Whether the call returns 0.
unfoldable pub net_udp_bind : ℕ → Net → Bool × Net
net_udp_bind port n =
    if not n.net_up
      || (port == 0 || (port == http_port || (port == udp_echo_port || port == dhcp_client_port)))
    then (false, n)
    else (true, record n { udp_port = port; udp_head = 0; udp_tail = 0 })

pub ip_bytes : ℕ → List ℕ
ip_bytes ip = ip / 2 ^ 24 % 256 ∷ ip / 2 ^ 16 % 256 ∷ ip / 2 ^ 8 % 256 ∷ ip % 256 ∷ []

pub broadcast_mac : List ℕ
broadcast_mac = 255 ∷ 255 ∷ 255 ∷ 255 ∷ 255 ∷ 255 ∷ []

-- The number below 0 that the call returns, or 0.
pub net_udp_send : ℕ → ℕ → List ℕ → Net → ℕ × Net
unfolding arp_find transmit
net_udp_send dst_ip dst_port bytes n =
    if not n.net_up || (n.udp_port == 0 || ltb udp_msg_max (length bytes))
    then (1, n)
    else if dst_ip == 2 ^ 32 - 1
    then (0, transmit (datagram broadcast_mac (ip_bytes dst_ip) n.udp_port dst_port bytes) n)
    else elim (arp_find (ip_bytes dst_ip) n) [
      | none ↦ (2, transmit (who_has (ip_bytes dst_ip)) n)
      | some mac ↦ (0, transmit (datagram mac (ip_bytes dst_ip) n.udp_port dst_port bytes) n)
    ]

-- The bytes that are copied, the address and the port of the sender; `none` for -1.
unfoldable pub net_udp_recv : ℕ → Net → Option Message × Net
net_udp_recv maxlen n =
    if n.udp_head == n.udp_tail
    then (none, n)
    else (let m = n.udp_q (n.udp_head % udp_queue) in
        (
          some (record m { bytes = take maxlen m.bytes }),
          record n { udp_head = (n.udp_head + 1) % 2 ^ 32 },
        ))
