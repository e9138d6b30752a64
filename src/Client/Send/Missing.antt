-- ===== src/Client/Send/Missing.antt =====
-- `send_to_missing` of src/client.rs against the list of the targets whose servers have not answered.
use rl_rust_client.Common.{
  ℕ, suc, ◌+◌, ◌≡◌, List, [], ◌∷◌, ◌++◌, length, Bool, true, false, ◌||◌, ltb, if◌then◌else◌,
  Option, none, some, Result, ok, err,
}
use rl_rust_client.Error.{IoError, IoResult, sent, failed, CoreError, io}
use rl_rust_client.Client.Servers.{SocketAddr, ResolvedTargets, target_server_id}
use rl_rust_client.Client.Send.{FamilySockets, send_to, responded, SendLoop}

abbrev pub is_sent : IoResult → Bool
is_sent (sent _) = true
is_sent (failed _) = false

abbrev pub has_error : Option IoError → Bool
has_error none = false
has_error (some e) = true

abbrev pub is_io_error : Result CoreError (Unit {0}) → Bool
is_io_error (err (io e)) = true
is_io_error _ = false

abbrev push : List ℕ → Option ℕ → List ℕ
push ids none = ids
push ids (some id) = id ∷ ids

-- The targets that have not answered, in order.
abbrev pub missing : ResolvedTargets → List ℕ → List SocketAddr → List SocketAddr → List SocketAddr
missing resolved ids addrs [] = []
missing resolved ids addrs (t ∷ ts) =
    let rest = missing resolved ids addrs ts in
    if responded resolved ids addrs t then rest else t ∷ rest

-- How many of some targets a send reaches, and the ids of the servers that it does not reach.
abbrev pub reached : FamilySockets → List SocketAddr → ℕ
reached sockets [] = 0
reached sockets (t ∷ ts) =
    let rest = reached sockets ts in if is_sent (send_to sockets t) then suc rest else rest

abbrev pub unreached_ids : FamilySockets → ResolvedTargets → List SocketAddr → List ℕ
unreached_ids sockets resolved [] = []
unreached_ids sockets resolved (t ∷ ts) =
    let rest = unreached_ids sockets resolved ts in
    if is_sent (send_to sockets t)
    then rest
    else push rest (target_server_id resolved.target_server_ids t)

-- The error of the last of some targets that a send does not reach.
abbrev pub failure : IoResult → Option IoError
failure (sent _) = none
failure (failed e) = some e

abbrev pub or_earlier : Option IoError → Option IoError → Option IoError
or_earlier (some e) first = some e
or_earlier none first = first

abbrev pub last_failure : FamilySockets → List SocketAddr → Option IoError
last_failure sockets [] = none
last_failure sockets (t ∷ ts) = or_earlier (last_failure sockets ts) (failure (send_to sockets t))

-- What is answered when nobody is reached.
abbrev pub unreached_answer : Option IoError → Result CoreError (Unit {0})
unreached_answer none = ok tt
unreached_answer (some e) = err (io e)

-- What the loop has done when it ends, from any state of its variables.
record LoopEnds (s e : SendLoop) (sockets : FamilySockets) (resolved : ResolvedTargets)
    (m : List SocketAddr) : Type 0 where
  all_attempted : e.attempted ≡ s.attempted + length m
  all_delivered : e.delivered ≡ s.delivered + reached sockets m
  all_logged : e.log ≡ s.log ++ m
  ids_failed : e.failed_server_ids ≡ s.failed_server_ids ++ unreached_ids sockets resolved m
  error_kept :
      has_error e.last_error ≡ (has_error s.last_error || ltb (reached sockets m) (length m))
  last_kept : e.last_error ≡ or_earlier (last_failure sockets m) s.last_error
