-- ===== src/Net/Queue.antt =====
-- The ring of game datagrams as a queue.
use arcade_os.Base.{
  ℕ, zero, suc, ◌+◌, ◌-◌, ◌%◌, ◌^◌, ◌≤◌, ◌<◌, ◌≡◌, ◌≢◌, ◌∙◌, refl, ap, true, false, not, ◌||◌,
  Option, none, some, List, [], ◌∷◌, ◌++◌, ltb, leb, ◌==◌, if◌then◌else◌, arith, length, take,
  Bool-cases, inl, inr,
}
use arcade_os.Gamepad.{write_at}
use arcade_os.Net.{
  Net, Message, Ends, udp_queue, udp_msg_max, dhcp_client_port, udp_echo_port, beam_port, arp_learn,
  learn_at, find_ip, enqueue, handle_udp, net_udp_recv,
}

-- The number of datagrams that wait.
abbrev pub waiting : Net → ℕ
waiting n = (n.udp_tail + 2 ^ 32 - n.udp_head) % 2 ^ 32

pub record IsSocket (n : Net) : Type 0 where
  pub head_inside : n.udp_head < 2 ^ 32
  pub tail_inside : n.udp_tail < 2 ^ 32
  pub few : waiting n ≤ udp_queue

-- `c` datagrams from the counter `k` on, the oldest first.
abbrev pub entries : (ℕ → Message) → ℕ → ℕ → List Message
entries q k zero = []
entries q k (suc c) = q (k % udp_queue) ∷ entries q ((k + 1) % 2 ^ 32) c

abbrev pub queue : Net → List Message
queue n = entries n.udp_q n.udp_head (waiting n)

length-entries : (q : ℕ → Message) (k c : ℕ) → length (entries q k c) ≡ c
length-entries q k zero = refl
length-entries q k (suc c) = ap suc (length-entries q ((k + 1) % 2 ^ 32) c)

-- The newest comes last.
entries_last :
    (q : ℕ → Message) (k c : ℕ)
    → entries q k (suc c) ≡ entries q k c ++ q ((k + c) % udp_queue) ∷ []
entries_last q k zero = ap (λ j. q (j % udp_queue) ∷ []) (omega arith)
entries_last q k (suc c) =
    ap (λ xs. q (k % udp_queue) ∷ xs)
      (entries_last q ((k + 1) % 2 ^ 32) c
        ∙ ap (λ j. entries q ((k + 1) % 2 ^ 32) c ++ q j ∷ []) same_slot)
  where
    same_slot : ((k + 1) % 2 ^ 32 + c) % udp_queue ≡ (k + suc c) % udp_queue
    same_slot = omega arith

-- A write to the slot of a later datagram.
entries_later :
    (q : ℕ → Message) (m : Message) (k c d : ℕ)
    → c ≤ d
    → d < udp_queue
    → entries (write_at q ((k + d) % udp_queue) m) k c ≡ entries q k c
entries_later q m k zero d below inside = refl
entries_later q m k (suc c) zero below inside = absurd (omega (arith, below))
entries_later q m k (suc c) (suc d) below inside =
    ap (λ x. x ∷ entries (write_at q ((k + suc d) % udp_queue) m) ((k + 1) % 2 ^ 32) c) own
    ∙ ap (λ xs. q (k % udp_queue) ∷ xs)
        (ap (λ j. entries (write_at q j m) ((k + 1) % 2 ^ 32) c) same_slot
          ∙ entries_later q m ((k + 1) % 2 ^ 32) c d (omega (arith, below)) (omega (arith, inside)))
  where
    same_slot : (k + suc d) % udp_queue ≡ ((k + 1) % 2 ^ 32 + d) % udp_queue
    same_slot = omega arith

    other : (k % udp_queue == (k + suc d) % udp_queue) ≡ false
    other = ground (arith, inside)

    own : write_at q ((k + suc d) % udp_queue) m (k % udp_queue) ≡ q (k % udp_queue)
    own = rw other refl

write_self : (q : ℕ → Message) (m : Message) (j : ℕ) → write_at q j m j ≡ m
write_self q m j = ground arith

entries_behind :
    (q : ℕ → Message) (m : Message) (k c : ℕ)
    → c < udp_queue
    → entries (write_at q ((k + c) % udp_queue) m) k (suc c) ≡ entries q k c ++ m ∷ []
entries_behind q m k c inside =
    entries_last (write_at q ((k + c) % udp_queue) m) k c
    ∙ ap (λ xs. xs ++ write_at q ((k + c) % udp_queue) m ((k + c) % udp_queue) ∷ [])
        (entries_later q m k c c (omega arith) inside)
    ∙ ap (λ x. entries q k c ++ x ∷ []) (write_self q m ((k + c) % udp_queue))

-- The queue after a datagram: dropped when eight are waiting, else the last.
abbrev pub bounded : Message → List Message → List Message
bounded m ms = if leb udp_queue (length ms) then ms else ms ++ m ∷ []

queue-enqueue : (m : Message) (n : Net) → IsSocket n → queue (enqueue m n) ≡ bounded m (queue n)
unfolding enqueue
queue-enqueue m n socket = elim (Bool-cases (leb udp_queue (waiting n))) [
  | inl full ↦ rw (length-entries n.udp_q n.udp_head (waiting n), full) refl
  | inr room ↦
      rw (length-entries n.udp_q n.udp_head (waiting n), room)
        (ap (entries (write_at n.udp_q (n.udp_tail % udp_queue) m) n.udp_head) (one_more room)
          ∙ ap (λ j. entries (write_at n.udp_q j m) n.udp_head (suc (waiting n))) (tail_slot room)
          ∙ entries_behind n.udp_q m n.udp_head (waiting n) (omega (arith, ltb_room room)))
]
  where
    ltb_room : leb udp_queue (waiting n) ≡ false → waiting n < udp_queue
    ltb_room room = ground (arith, room)

    one_more :
        leb udp_queue (waiting n) ≡ false
        → ((n.udp_tail + 1) % 2 ^ 32 + 2 ^ 32 - n.udp_head) % 2 ^ 32 ≡ suc (waiting n)
    one_more room = omega (arith, ltb_room room, socket.head_inside, socket.tail_inside)

    tail_slot :
        leb udp_queue (waiting n) ≡ false
        → n.udp_tail % udp_queue ≡ (n.udp_head + waiting n) % udp_queue
    tail_slot room = omega (arith, ltb_room room, socket.head_inside, socket.tail_inside)

-- Learning an address leaves the datagrams.
learn_at-IsSocket :
    (ip mac : List ℕ) (n : Net) (found : Option ℕ) → IsSocket n → IsSocket (learn_at ip mac n found)
unfolding learn_at
learn_at-IsSocket ip mac n none s = record {
  head_inside = s.head_inside;
  tail_inside = s.tail_inside;
  few = s.few;
}
learn_at-IsSocket ip mac n (some i) s = record {
  head_inside = s.head_inside;
  tail_inside = s.tail_inside;
  few = s.few;
}

queue-learn_at :
    (ip mac : List ℕ) (n : Net) (found : Option ℕ) → queue (learn_at ip mac n found) ≡ queue n
unfolding learn_at
queue-learn_at ip mac n none = refl
queue-learn_at ip mac n (some i) = refl

length-take : (k : ℕ) (xs : List ℕ) → length (take k xs) ≤ k
length-take zero xs = omega arith
length-take (suc k) [] = omega arith
length-take (suc k) (x ∷ xs) = omega (arith, length-take k xs)

-- A whole datagram of 512 bytes at most, for the port of the game, goes to the end of the queue, or
-- is dropped when eight are waiting.
pub queue-handle_udp :
    (dhcp : List ℕ → Net → Net) (beam : List ℕ → List ℕ → Net → Net) (e : Ends) (ulen : ℕ)
    (payload : List ℕ) (n : Net)
    → IsSocket n
    → 8 ≤ ulen
    → ulen ≤ length payload + 8
    → ulen ≤ udp_msg_max + 8
    → e.dst_port ≡ n.udp_port
    → n.udp_port ≢ 0
    → n.udp_port ≢ dhcp_client_port
    → n.udp_port ≢ udp_echo_port
    → n.udp_port ≢ beam_port
    → queue (handle_udp dhcp beam e ulen payload n)
      ≡ bounded
          (record { sport = e.src_port; sip = e.src_ip; bytes = take (ulen - 8) payload })
          (queue n)
unfolding handle_udp arp_learn
queue-handle_udp dhcp beam e ulen payload n socket long whole small port bound not_dhcp not_echo
      not_beam =
    rw (inside, other_dhcp, other_echo, other_beam, mine, fits)
      (queue-enqueue message known
          (learn_at-IsSocket e.src_ip e.src_mac n (find_ip e.src_ip n.arp_cache) socket)
        ∙ ap (bounded message) (queue-learn_at e.src_ip e.src_mac n (find_ip e.src_ip n.arp_cache)))
  where
    message : Message
    message = record { sport = e.src_port; sip = e.src_ip; bytes = take (ulen - 8) payload }

    known : Net
    known = learn_at e.src_ip e.src_mac n (find_ip e.src_ip n.arp_cache)

    inside : (ltb ulen 8 || ltb (length payload + 8) ulen) ≡ false
    inside = ground (arith, long, whole)

    other_dhcp : (e.dst_port == dhcp_client_port) ≡ false
    other_dhcp = ground (arith, port, not_dhcp)

    other_echo : (e.dst_port == udp_echo_port) ≡ false
    other_echo = ground (arith, port, not_echo)

    other_beam : (e.dst_port == beam_port) ≡ false
    other_beam = ground (arith, port, not_beam)

    mine : (n.udp_port == 0 || not (e.dst_port == n.udp_port)) ≡ false
    mine = ground (arith, port, bound)

    fits : ltb udp_msg_max (length (take (ulen - 8) payload)) ≡ false
    fits = ground (arith, small, length-take (ulen - 8) payload)

-- What a receive gives for a queue, and what it leaves.
abbrev pub Received : ℕ → List Message → Option Message × Net → Net → Type 0
Received maxlen [] result n = result ≡ (none, n)
Received maxlen (m ∷ ms) result n =
    (result.0 ≡ some (record m { bytes = take maxlen m.bytes })) × (queue result.1 ≡ ms)

-- A receive takes the oldest datagram off the queue, cut to the length asked for, and fails only
-- when there is none.
pub net_udp_recv-Received :
    (maxlen : ℕ) (n : Net) → IsSocket n → Received maxlen (queue n) (net_udp_recv maxlen n) n
unfolding net_udp_recv
net_udp_recv-Received maxlen n socket = elim (Bool-cases (n.udp_head == n.udp_tail)) [
  | inl empty ↦ rw (nothing empty, empty) refl
  | inr some_left ↦ rw (one_more some_left, some_left) (refl, refl)
]
  where
    left : ℕ
    left = (n.udp_tail + 2 ^ 32 - (n.udp_head + 1) % 2 ^ 32) % 2 ^ 32

    nothing : (n.udp_head == n.udp_tail) ≡ true → waiting n ≡ 0
    nothing empty = ground (arith, empty, socket.head_inside)

    apart : (n.udp_head == n.udp_tail) ≡ false → n.udp_head ≢ n.udp_tail
    apart some_left = ground (arith, some_left)

    one_more : (n.udp_head == n.udp_tail) ≡ false → waiting n ≡ suc left
    one_more some_left = omega (arith, apart some_left, socket.head_inside, socket.tail_inside)

pub enqueue-IsSocket : (m : Message) (n : Net) → IsSocket n → IsSocket (enqueue m n)
unfolding enqueue
enqueue-IsSocket m n socket = elim (Bool-cases (leb udp_queue (waiting n))) [
  | inl full ↦ rw full socket
  | inr room ↦ rw room (record {
    head_inside = socket.head_inside;
    tail_inside = omega arith;
    few = omega (arith, below room, socket.head_inside, socket.tail_inside);
  })
]
  where
    below : leb udp_queue (waiting n) ≡ false → waiting n < udp_queue
    below room = ground (arith, room)

pub net_udp_recv-IsSocket : (maxlen : ℕ) (n : Net) → IsSocket n → IsSocket (net_udp_recv maxlen n).1
unfolding net_udp_recv
net_udp_recv-IsSocket maxlen n socket = elim (Bool-cases (n.udp_head == n.udp_tail)) [
  | inl empty ↦ rw empty socket
  | inr left ↦ rw left (record {
    head_inside = omega arith;
    tail_inside = socket.tail_inside;
    few = omega (arith, apart left, socket.head_inside, socket.tail_inside, socket.few);
  })
]
  where
    apart : (n.udp_head == n.udp_tail) ≡ false → n.udp_head ≢ n.udp_tail
    apart left = ground (arith, left)
