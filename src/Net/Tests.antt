-- ===== src/Net/Tests.antt =====
-- A game at port 5000, with one datagram waiting at the end of the counters.
use arcade_os.Base.{◌-◌, ◌/◌, ◌%◌, ◌^◌, ◌≡◌, refl, true, [], ◌∷◌, arith}
use arcade_os.Net.{Net, Message, Ends, handle_udp, net_udp_recv, no_address}
use arcade_os.Net.Checksum.{checksum16, checksum16-append}
use arcade_os.Net.Queue.{
  IsSocket, queue, bounded, Received, queue-handle_udp, net_udp_recv-Received,
}

abbrev first_message : Message
first_message = record { sport = 5000; sip = 10 ∷ 0 ∷ 2 ∷ 5 ∷ []; bytes = 1 ∷ 2 ∷ 3 ∷ [] }

abbrev one_waiting : Net
one_waiting = record {
  net_up = true;
  udp_port = 5000;
  udp_q = λ j. first_message;
  udp_head = 2 ^ 32 - 1;
  udp_tail = 0;
  arp_cache = no_address ∷ no_address ∷ no_address ∷ no_address ∷ [];
  arp_next = 0;
  sent = [];
}

one_waiting-IsSocket : IsSocket one_waiting
one_waiting-IsSocket = record {
  head_inside = omega arith;
  tail_inside = omega arith;
  few = omega arith;
}

abbrev ends : Ends
ends = record {
  src_mac = 2 ∷ 0 ∷ 0 ∷ 0 ∷ 0 ∷ 1 ∷ [];
  src_ip = 10 ∷ 0 ∷ 2 ∷ 6 ∷ [];
  src_port = 5000;
  dst_port = 5000;
}

-- Of the payload of four bytes, three belong to the datagram.
queue-handle_udp_example :
    queue (handle_udp (λ bytes n. n) (λ ip bytes n. n) ends 11 (7 ∷ 8 ∷ 9 ∷ 0 ∷ []) one_waiting)
    ≡ bounded
        (record { sport = 5000; sip = 10 ∷ 0 ∷ 2 ∷ 6 ∷ []; bytes = 7 ∷ 8 ∷ 9 ∷ [] })
        (queue one_waiting)
queue-handle_udp_example =
    queue-handle_udp (λ bytes n. n) (λ ip bytes n. n) ends 11 (7 ∷ 8 ∷ 9 ∷ 0 ∷ []) one_waiting
      one_waiting-IsSocket (omega arith) (omega arith) (omega arith) refl (omega arith)
      (omega arith) (omega arith) (omega arith)

net_udp_recv-Received_example :
    Received 2 (first_message ∷ []) (net_udp_recv 2 one_waiting) one_waiting
net_udp_recv-Received_example = net_udp_recv-Received 2 one_waiting one_waiting-IsSocket

checksum16-append_example :
    checksum16
      (69
        ∷ 0
        ∷ 0
        ∷ 60
        ∷ checksum16 (69 ∷ 0 ∷ 0 ∷ 60 ∷ []) 0 / 256
        ∷ checksum16 (69 ∷ 0 ∷ 0 ∷ 60 ∷ []) 0 % 256
        ∷ [])
      0
    ≡ 0
checksum16-append_example =
    checksum16-append (69 ∷ 0 ∷ 0 ∷ 60 ∷ []) 0 tt
      (omega arith, (omega arith, (omega arith, (omega arith, tt)))) (omega arith)
