-- ===== src/Client/Router.antt =====
-- The response router of src/client.rs and the requests that it serves: `InflightMap`, the registration
-- of a request and its drop, and one turn of the loop of `response_router`. The channel of a request is
-- a number, and its content the list of what was sent into it.
pub mod Routing
pub mod Closed
pub mod Invariant
pub mod Open
pub mod Lifecycle
use rl_rust_client.Common.{
  ℕ, ◌+◌, List, [], ◌∷◌, ◌++◌, Bool, true, false, ◌&&◌, ◌==◌, if◌then◌else◌, Option, none, some,
  Result, ok, err, panic,
}
use rl_rust_client.Error.{CoreError}
use rl_rust_client.Client.Response.{peek_request_id}
use rl_rust_client.Client.Servers.{SocketAddr}

abbrev pub Uuid : Type 0
Uuid = List ℕ

-- `ResponsePacket`
pub record ResponsePacket : Type 0 where
  pub bytes : List ℕ
  pub addr : SocketAddr

abbrev pub same_id : Uuid → Uuid → Bool
same_id [] [] = true
same_id [] (y ∷ ys) = false
same_id (x ∷ xs) [] = false
same_id (x ∷ xs) (y ∷ ys) = x == y && same_id xs ys

-- `InflightMap`: the newest entry of an id counts, and a removal takes all.
abbrev pub InflightMap : Type 0
InflightMap = List (Uuid × ℕ)

unfoldable pub get : InflightMap → Uuid → Option ℕ
get [] id = none
get ((x, channel) ∷ entries) id =
    let rest = get entries id in if same_id x id then some channel else rest

unfoldable pub remove : InflightMap → Uuid → InflightMap
remove [] id = []
remove ((x, channel) ∷ entries) id =
    let rest = remove entries id in if same_id x id then rest else (x, channel) ∷ rest

-- The map, the number of channels that were made, what each holds, and the packet that the router is
-- about to send, with the sender that it has cloned.
pub record Router : Type 0 where
  pub inflight : InflightMap
  pub channels : ℕ
  pub queue : ℕ → List ResponsePacket
  pub held : Option (ℕ × ResponsePacket)

abbrev pub no_requests : Router
no_requests = record { inflight = []; channels = 0; queue = λ channel. []; held = none }

-- A request makes a channel and enters it.
unfoldable pub register : Router → Uuid → Router
register r id = record {
  inflight = (id, r.channels) ∷ r.inflight;
  channels = r.channels + 1;
  queue = r.queue;
  held = r.held;
}

-- `InflightRegistration::drop`
unfoldable pub unregister : Router → Uuid → Router
unregister r id = record {
  inflight = remove r.inflight id;
  channels = r.channels;
  queue = r.queue;
  held = r.held;
}

-- The id that a datagram is routed by. A panic would end the router; whether the peek has one is the
-- matter of Client/Peek.
abbrev pub id_of : Result CoreError (Option Uuid) → Option Uuid
id_of (ok id) = id
id_of _ = none

abbrev pub route_id : ResponsePacket → Option Uuid
route_id packet = id_of (peek_request_id packet.bytes)

abbrev pub find_sender : InflightMap → Option Uuid → Option ℕ
find_sender inflight none = none
find_sender inflight (some id) = get inflight id

abbrev pub hold : Router → ResponsePacket → Option ℕ → Router
hold r packet none = r
hold r packet (some channel) = record {
  inflight = r.inflight;
  channels = r.channels;
  queue = r.queue;
  held = some (channel, packet);
}

-- From the receipt of a datagram to the clone of the sender, by the bytes that the buffer holds.
unfoldable pub receive : Router → ResponsePacket → Router
receive r packet = hold r packet (find_sender r.inflight (route_id packet))

abbrev pub push_packet : (ℕ → List ResponsePacket) → ℕ → ResponsePacket → ℕ → List ResponsePacket
push_packet queue channel packet c = if c == channel then queue c ++ (packet ∷ []) else queue c

abbrev pub send_held : Router → Option (ℕ × ResponsePacket) → Router
send_held r none = r
send_held r (some (channel, packet)) = record {
  inflight = r.inflight;
  channels = r.channels;
  queue = push_packet r.queue channel packet;
  held = none;
}

-- `sender.send(…)`
unfoldable pub forward : Router → Router
forward r = send_held r r.held

-- A turn of a request or of the router. The router sends the packet that it holds before it takes the
-- next one, and other turns can come in between.
pub data Turn : Type 0 where
  registers drops : Uuid → Turn
  arrives : ResponsePacket → Turn
  sends : Turn

unfoldable pub turn : Router → Turn → Router
turn r (registers id) = register r id
turn r (drops id) = unregister r id
turn r (arrives packet) = receive (forward r) packet
turn r sends = forward r

unfoldable pub run : Router → List Turn → Router
run r [] = r
run r (t ∷ turns) = run (turn r t) turns
