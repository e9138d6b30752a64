-- ===== src/Client/Send.antt =====
-- Sending in src/client.rs: `FamilySockets::send_to` and `send_to_missing`. The answer of the
-- operating system to a send is a parameter, a function of the target.
pub mod Missing
use rl_rust_client.Common.{
  ℕ, zero, suc, ◌+◌, List, [], ◌∷◌, ◌++◌, length, Bool, true, false, ltb, ◌==◌, if◌then◌else◌,
  Option, none, some, Result, ok, err, panic, ◌>>=◌,
}
use rl_rust_client.Error.{IoError, IoResult, sent, failed, CoreError, addr_not_available, io}
use rl_rust_client.Client.Servers.{
  SocketAddr, v4, v6, ResolvedTargets, Stats, has_id, has_addr, target_server_id,
  record_send_failures,
}

-- What the socket of a family answers for a target: the bytes sent, or the error.
abbrev pub Socket : Type 0
Socket = SocketAddr → IoResult

pub record FamilySockets : Type 0 where
  pub socket_v4 : Option Socket
  pub socket_v6 : Option Socket

abbrev send_on : Option Socket → Socket
send_on (some socket) target = socket target
send_on none target = failed (record { kind = addr_not_available })

unfoldable pub send_to : FamilySockets → Socket
send_to sockets (v4 ip port) = send_on sockets.socket_v4 (v4 ip port)
send_to sockets (v6 ip port flow scope) = send_on sockets.socket_v6 (v6 ip port flow scope)

-- Whether the server of a target has answered: by its id, or by its address if it has none.
unfoldable pub responded : ResolvedTargets → List ℕ → List SocketAddr → SocketAddr → Bool
responded resolved seen_server_ids seen_addrs target =
    elim (target_server_id resolved.target_server_ids target) [
      | none ↦ has_addr seen_addrs target
      | some id ↦ has_id seen_server_ids id
    ]

-- The variables of the loop, with the targets to which a datagram was handed in `log`.
pub record SendLoop : Type 0 where
  pub attempted : ℕ
  pub delivered : ℕ
  pub last_error : Option IoError
  pub failed_server_ids : List ℕ
  pub log : List SocketAddr

unfoldable pub start_loop : SendLoop
start_loop = record {
  attempted = 0;
  delivered = 0;
  last_error = none;
  failed_server_ids = [];
  log = [];
}

abbrev pub push_id : List ℕ → Option ℕ → List ℕ
push_id ids none = ids
push_id ids (some id) = ids ++ (id ∷ [])

-- One attempt, by the answer of `send_datagram`.
unfoldable pub attempt : ResolvedTargets → SocketAddr → SendLoop → IoResult → SendLoop
attempt resolved target s (sent _) = record s {
  attempted = s.attempted + 1;
  delivered = s.delivered + 1;
  log = s.log ++ (target ∷ []);
}
attempt resolved target s (failed error) = record s {
  attempted = s.attempted + 1;
  last_error = some error;
  failed_server_ids =
      push_id s.failed_server_ids (target_server_id resolved.target_server_ids target);
  log = s.log ++ (target ∷ []);
}

unfoldable pub send_loop :
    FamilySockets
    → ResolvedTargets
    → List ℕ
    → List SocketAddr
    → List SocketAddr
    → SendLoop
    → SendLoop
send_loop sockets resolved ids addrs [] s = s
send_loop sockets resolved ids addrs (target ∷ targets) s =
    send_loop sockets resolved ids addrs targets (
      if responded resolved ids addrs target
      then s
      else attempt resolved target s (send_to sockets target))

-- The end of `send_to_missing`: its answer, and the statistics.
unfoldable pub finish_send : Stats → ℕ → SendLoop → Stats × Result CoreError (Unit {0})
finish_send stats now s =
    if s.delivered == 0
    then (stats, elim s.last_error [ none ↦ ok tt | some error ↦ err (io error) ])
    else if ltb s.delivered s.attempted
    then (record_send_failures stats now s.failed_server_ids, ok tt)
    else (stats, ok tt)

unfoldable pub send_to_missing :
    FamilySockets
    → ResolvedTargets
    → List ℕ
    → List SocketAddr
    → Stats
    → ℕ
    → Stats × List SocketAddr × Result CoreError (Unit {0})
send_to_missing sockets resolved ids addrs stats now =
    let s = send_loop sockets resolved ids addrs resolved.targets start_loop in
    let (stats', outcome) = finish_send stats now s in (stats', s.log, outcome)
