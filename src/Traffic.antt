-- ===== src/Traffic.antt =====
-- The traffic counters of src/traffic.rs. The memory is one number for each counter and the flag.
-- `add` is cut into its atomic steps, which the tasks of the client take in any order; all loads are
-- relaxed, so a load may answer any earlier value, here any value at all.
pub mod Steps
use rl_rust_client.Common.{
  ℕ, ◌+◌, ◌-◌, ◌/◌, ◌%◌, ◌^◌, List, [], ◌∷◌, Bool, true, false, ltb, ◌==◌, if◌then◌else◌,
}
use rl_rust_client.Error.{IoResult, IoError, sent, failed}
use rl_rust_client.Client.Servers.{SocketAddr, v4, v6}

pub record TrafficDirection : Type 0 where
  pub datagrams : ℕ
  pub payload_bytes : ℕ
  pub ip_bytes : ℕ

pub record TrafficStats : Type 0 where
  pub sent : TrafficDirection
  pub received : TrafficDirection
  pub send_failures : ℕ
  pub incomplete : Bool

-- The atomic counters: three for each direction, and the failures.
pub data Direction : Type 0 where
  outgoing incoming : Direction

pub data Counter : Type 0 where
  datagrams_of payload_bytes_of ip_bytes_of : Direction → Counter
  failures : Counter

abbrev pub counter_index : Counter → ℕ
counter_index (datagrams_of outgoing) = 0
counter_index (payload_bytes_of outgoing) = 1
counter_index (ip_bytes_of outgoing) = 2
counter_index (datagrams_of incoming) = 3
counter_index (payload_bytes_of incoming) = 4
counter_index (ip_bytes_of incoming) = 5
counter_index failures = 6

abbrev pub same_counter : Counter → Counter → Bool
same_counter c d = counter_index c == counter_index d

pub record TrafficCounters : Type 0 where
  pub value : Counter → ℕ
  pub flag : Bool

-- `TrafficCounters::default`
abbrev pub no_traffic : TrafficCounters
no_traffic = record { value = λ c. 0; flag = false }

abbrev pub u64_max : ℕ
u64_max = 2 ^ 64 - 1

abbrev pub saturating_add : ℕ → ℕ → ℕ
saturating_add a b = if ltb u64_max (a + b) then u64_max else a + b

-- `previous.checked_add(value).is_none()`
abbrev pub overflows : ℕ → ℕ → Bool
overflows previous value = ltb u64_max (previous + value)

-- The counters after an exchange that succeeds.
unfoldable pub store_counter : TrafficCounters → Counter → ℕ → TrafficCounters
store_counter m c next = record {
  value = λ d. if same_counter c d then next else m.value d;
  flag = m.flag;
}

-- `self.incomplete.store(true, …)`
unfoldable pub store_incomplete : TrafficCounters → TrafficCounters
store_incomplete m = record { value = m.value; flag = true }

-- A call of `add`: the counter and the value.
abbrev pub Add : Type 0
Add = Counter × ℕ

-- The address bytes of IPv6 that stand for one of IPv4: 80 zeros, 16 ones, and the address.
abbrev pub is_ipv4_mapped : ℕ → Bool
is_ipv4_mapped ip = ip / 2 ^ 32 == 65535

unfoldable pub headers : SocketAddr → ℕ
headers (v4 ip port) = 28
headers (v6 ip port flow scope) = if is_ipv4_mapped ip then 28 else 48

-- The calls of `add` in `record`, in order.
unfoldable pub record_adds : Direction → ℕ → SocketAddr → List Add
record_adds direction len peer =
    (datagrams_of direction, 1)
    ∷ (payload_bytes_of direction, len % 2 ^ 64)
    ∷ (ip_bytes_of direction, (len % 2 ^ 64 + headers peer) % 2 ^ 64)
    ∷ []

-- The calls of `add` in `sent` and in `received`.
unfoldable pub sent_adds : ℕ → SocketAddr → IoResult → List Add
sent_adds len peer (IoResult.sent n) =
    if n == len then record_adds outgoing len peer else (failures, 1) ∷ []
sent_adds len peer (failed error) = (failures, 1) ∷ []

unfoldable pub received_adds : ℕ → SocketAddr → List Add
received_adds len peer = record_adds incoming len peer

-- `snapshot`, where the counters stand still.
abbrev direction_stats : TrafficCounters → Direction → TrafficDirection
direction_stats m direction = record {
  datagrams = m.value (datagrams_of direction);
  payload_bytes = m.value (payload_bytes_of direction);
  ip_bytes = m.value (ip_bytes_of direction);
}

unfoldable pub snapshot : TrafficCounters → TrafficStats
snapshot m = record {
  sent = direction_stats m outgoing;
  received = direction_stats m incoming;
  send_failures = m.value failures;
  incomplete = m.flag;
}

-- Where a task stands: before the load of its next call of `add`, with the value that it loaded last,
-- or before the store of the flag.
pub data Task : Type 0 where
  ready : List Add → Task
  holding : ℕ → Counter → ℕ → List Add → Task
  flagging : List Add → Task

-- What a task does after an exchange that found `previous`.
unfoldable pub after_exchange : ℕ → ℕ → List Add → Task
after_exchange previous value rest = if overflows previous value then flagging rest else ready rest
