-- ===== src/Traffic/Steps/Documented.antt =====
-- The totals that src/traffic.rs documents, as sums over the calls.
use rl_rust_client.Common.{
  ℕ, ◌+◌, ◌^◌, ◌<◌, ◌≡◌, inl, inr, refl, sym, ◌∙◌, arith, List, [], ◌∷◌, ◌++◌, All, Bool, true,
  false, ◌&&◌, leb, ltb, ◌*◌, ◌==◌, if◌then◌else◌, Bool-cases,
}
use rl_rust_client.Error.{IoResult, failed}
use rl_rust_client.Client.Servers.{SocketAddr, v4, v6}
use rl_rust_client.Traffic.{
  Direction, outgoing, incoming, datagrams_of, payload_bytes_of, ip_bytes_of, failures, Counter,
  Add, same_counter, is_ipv4_mapped, headers, record_adds, sent_adds, received_adds,
}
use rl_rust_client.Traffic.Steps.{Event, sent_event, received_event, event_adds, all_adds}
use rl_rust_client.Traffic.Steps.Totals.{total}

-- A datagram: its length and its peer. A send counts as one if all its bytes were taken.
abbrev pub Datagram : Type 0
Datagram = ℕ × SocketAddr

abbrev pub taken : IoResult → ℕ → Bool
taken (IoResult.sent n) len = n == len
taken (failed error) len = false

unfoldable pub datagrams : Direction → List Event → List Datagram
datagrams outgoing [] = []
datagrams outgoing (sent_event len peer result ∷ events) =
    let rest = datagrams outgoing events in if taken result len then (len, peer) ∷ rest else rest
datagrams outgoing (received_event len peer ∷ events) = datagrams outgoing events
datagrams incoming [] = []
datagrams incoming (sent_event len peer result ∷ events) = datagrams incoming events
datagrams incoming (received_event len peer ∷ events) = (len, peer) ∷ datagrams incoming events

unfoldable pub failed_sends : List Event → ℕ
failed_sends [] = 0
failed_sends (sent_event len peer result ∷ events) =
    let rest = failed_sends events in if taken result len then rest else 1 + rest
failed_sends (received_event len peer ∷ events) = failed_sends events

-- The sum of a number of each datagram.
unfoldable pub sum_by : (Datagram → ℕ) → List Datagram → ℕ
sum_by f [] = 0
sum_by f (d ∷ ds) = f d + sum_by f ds

-- The headers of IP and UDP in front of a datagram: 20 or 40 bytes, and 8. IPv4 is also what goes to
-- an address of IPv6 between `::ffff:0.0.0.0` and `::ffff:255.255.255.255`.
abbrev pub ip_header : SocketAddr → ℕ
ip_header (v4 ip port) = 20
ip_header (v6 ip port flow scope) =
    if leb (65535 * 2 ^ 32) ip && ltb ip (65536 * 2 ^ 32) then 20 else 40

abbrev pub packet_headers : SocketAddr → ℕ
packet_headers peer = ip_header peer + 8

headers_lem : (peer : SocketAddr) → headers peer ≡ packet_headers peer
unfolding headers
headers_lem (v4 ip port) = refl
headers_lem (v6 ip port flow scope) = ground arith

-- What each counter is documented to count.
unfoldable pub documented : Counter → List Event → ℕ
documented (datagrams_of direction) events = sum_by (λ d. 1) (datagrams direction events)
documented (payload_bytes_of direction) events = sum_by (λ d. d.0) (datagrams direction events)
documented (ip_bytes_of direction) events =
    sum_by (λ d. d.0 + packet_headers d.1) (datagrams direction events)
documented failures events = failed_sends events

-- A datagram's length fits its field with the headers.
abbrev pub FitsEvent : Event → Type 0
FitsEvent (sent_event len peer result) = len < 2 ^ 32
FitsEvent (received_event len peer) = len < 2 ^ 32

headers_small : (peer : SocketAddr) → headers peer < 2 ^ 32
unfolding headers
headers_small (v4 ip port) = omega arith
headers_small (v6 ip port flow scope) = elim (Bool-cases (is_ipv4_mapped ip)) [
  | inl e ↦ rw e (omega arith)
  | inr e ↦ rw e (omega arith)
]

abbrev same_direction : Direction → Direction → Bool
same_direction outgoing outgoing = true
same_direction incoming incoming = true
same_direction _ _ = false

-- What one datagram adds to a counter.
abbrev share : Counter → Direction → ℕ → SocketAddr → ℕ
share (datagrams_of e) d len peer = if same_direction e d then 1 else 0
share (payload_bytes_of e) d len peer = if same_direction e d then len else 0
share (ip_bytes_of e) d len peer = if same_direction e d then len + packet_headers peer else 0
share failures d len peer = 0

record_total :
    (c : Counter) (d : Direction) (len : ℕ) (peer : SocketAddr) (rest : List Add)
    → len < 2 ^ 32
    → total c (record_adds d len peer ++ rest) ≡ share c d len peer + total c rest
unfolding total record_adds
record_total (datagrams_of outgoing) outgoing len peer rest h = omega (arith, headers_small peer)
record_total (datagrams_of outgoing) incoming len peer rest h = omega (arith, headers_small peer)
record_total (payload_bytes_of outgoing) outgoing len peer rest h =
    omega (arith, headers_small peer)
record_total (payload_bytes_of outgoing) incoming len peer rest h =
    omega (arith, headers_small peer)
record_total (ip_bytes_of outgoing) outgoing len peer rest h =
    omega (arith, headers_small peer, headers_lem peer)
record_total (ip_bytes_of outgoing) incoming len peer rest h = omega (arith, headers_small peer)
record_total (datagrams_of incoming) outgoing len peer rest h = omega (arith, headers_small peer)
record_total (datagrams_of incoming) incoming len peer rest h = omega (arith, headers_small peer)
record_total (payload_bytes_of incoming) outgoing len peer rest h =
    omega (arith, headers_small peer)
record_total (payload_bytes_of incoming) incoming len peer rest h =
    omega (arith, headers_small peer)
record_total (ip_bytes_of incoming) outgoing len peer rest h = omega (arith, headers_small peer)
record_total (ip_bytes_of incoming) incoming len peer rest h =
    omega (arith, headers_small peer, headers_lem peer)
record_total failures outgoing len peer rest h = omega (arith, headers_small peer)
record_total failures incoming len peer rest h = omega (arith, headers_small peer)

failure_total :
    (c : Counter) (rest : List Add)
    → total c ((failures, 1) ∷ rest) ≡ (if same_counter failures c then 1 else 0) + total c rest
unfolding total
failure_total c rest = refl

documented-taken :
    (c : Counter) (len : ℕ) (peer : SocketAddr) (result : IoResult) (events : List Event)
    → taken result len ≡ true
    → documented c (sent_event len peer result ∷ events)
      ≡ share c outgoing len peer + documented c events
unfolding documented datagrams sum_by failed_sends
documented-taken (datagrams_of outgoing) len peer result events h = rw h refl
documented-taken (payload_bytes_of outgoing) len peer result events h = rw h refl
documented-taken (ip_bytes_of outgoing) len peer result events h = rw h refl
documented-taken (datagrams_of incoming) len peer result events h = omega arith
documented-taken (payload_bytes_of incoming) len peer result events h = omega arith
documented-taken (ip_bytes_of incoming) len peer result events h = omega arith
documented-taken failures len peer result events h = rw h (omega arith)

documented-failed :
    (c : Counter) (len : ℕ) (peer : SocketAddr) (result : IoResult) (events : List Event)
    → taken result len ≡ false
    → documented c (sent_event len peer result ∷ events)
      ≡ (if same_counter failures c then 1 else 0) + documented c events
unfolding documented datagrams sum_by failed_sends
documented-failed (datagrams_of outgoing) len peer result events h = rw h (omega arith)
documented-failed (payload_bytes_of outgoing) len peer result events h = rw h (omega arith)
documented-failed (ip_bytes_of outgoing) len peer result events h = rw h (omega arith)
documented-failed (datagrams_of incoming) len peer result events h = omega arith
documented-failed (payload_bytes_of incoming) len peer result events h = omega arith
documented-failed (ip_bytes_of incoming) len peer result events h = omega arith
documented-failed failures len peer result events h = rw h refl

documented-received :
    (c : Counter) (len : ℕ) (peer : SocketAddr) (events : List Event)
    → documented c (received_event len peer ∷ events)
      ≡ share c incoming len peer + documented c events
unfolding documented datagrams sum_by failed_sends
documented-received (datagrams_of outgoing) len peer events = omega arith
documented-received (payload_bytes_of outgoing) len peer events = omega arith
documented-received (ip_bytes_of outgoing) len peer events = omega arith
documented-received (datagrams_of incoming) len peer events = refl
documented-received (payload_bytes_of incoming) len peer events = refl
documented-received (ip_bytes_of incoming) len peer events = refl
documented-received failures len peer events = omega arith

-- What a send asks to add.
sent_total :
    (c : Counter) (len : ℕ) (peer : SocketAddr) (result : IoResult) (rest : List Add)
    → len < 2 ^ 32
    → total c (sent_adds len peer result ++ rest)
      ≡ (if taken result len
          then share c outgoing len peer
          else if same_counter failures c
          then 1
          else 0)
        + total c rest
unfolding sent_adds
sent_total c len peer (IoResult.sent n) rest h = elim (Bool-cases (n == len)) [
  | inl e ↦ rw e (record_total c outgoing len peer rest h)
  | inr e ↦ rw e (failure_total c rest)
]
sent_total c len peer (failed error) rest h = failure_total c rest

documented_nil : (c : Counter) → 0 ≡ documented c []
unfolding documented datagrams sum_by failed_sends
documented_nil (datagrams_of outgoing) = refl
documented_nil (payload_bytes_of outgoing) = refl
documented_nil (ip_bytes_of outgoing) = refl
documented_nil (datagrams_of incoming) = refl
documented_nil (payload_bytes_of incoming) = refl
documented_nil (ip_bytes_of incoming) = refl
documented_nil failures = refl

pub documented_lem :
    (c : Counter) (events : List Event)
    → All FitsEvent events
    → total c (all_adds events) ≡ documented c events
unfolding total all_adds event_adds received_adds
documented_lem c [] h = documented_nil c
documented_lem c (sent_event len peer result ∷ events) (fits, h) =
    elim (Bool-cases (taken result len)) [
      | inl e ↦
          rw (sent_total c len peer result (all_adds events) fits, e, documented_lem c events h)
            (sym (documented-taken c len peer result events e))
      | inr e ↦
          rw (sent_total c len peer result (all_adds events) fits, e, documented_lem c events h)
            (sym (documented-failed c len peer result events e))
    ]
documented_lem c (received_event len peer ∷ events) (fits, h) =
    record_total c incoming len peer (all_adds events) fits
    ∙ rw (documented_lem c events h) (sym (documented-received c len peer events))
