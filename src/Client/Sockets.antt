-- ===== src/Client/Sockets.antt =====
-- `FamilySockets` in src/client.rs: the bind of both families, the local address, and which socket
-- is read first. What the system answers to the bind of one family is a parameter.
pub mod Families
use rl_rust_client.Common.{
  ℕ, Bool, true, false, not, ◌||◌, if◌then◌else◌, Option, none, some, Result, ok, err, panic,
}
use rl_rust_client.Error.{CoreError, IoError, ErrorKind, addr_in_use, io}

abbrev pub is_addr_in_use : ErrorKind → Bool
is_addr_in_use addr_in_use = true
is_addr_in_use _ = false

-- The sockets by family: IPv4 and IPv6.
abbrev pub Families : Type 0 → Type 0
Families Socket = Option Socket × Option Socket

module _ {Socket : Type 0} where
  -- The test of the loop over both results.
  abbrev pub in_use : Result CoreError Socket → Bool
  in_use (err (io error)) = is_addr_in_use error.kind
  in_use _ = false

  -- `.ok()` of a result that is no panic.
  abbrev pub ok_of : Result CoreError Socket → Option Socket
  ok_of (ok socket) = some socket
  ok_of _ = none

  abbrev pub both :
      Result CoreError Socket → Result CoreError Socket → Result CoreError (Families Socket)
  both (err error) (err _) = err error
  both v4 v6 = ok (ok_of v4, ok_of v6)

  -- `FamilySockets::bind`, by the answers for the families.
  unfoldable pub bind_families :
      Result CoreError Socket → Result CoreError Socket → Result CoreError (Families Socket)
  bind_families panic v6 = panic
  bind_families v4 panic = panic
  bind_families v4 v6 =
      if in_use v4 || in_use v6 then err (io (record { kind = addr_in_use })) else both v4 v6

  -- The socket of `local_addr`: that of IPv4 when there is one.
  unfoldable pub local_socket : Families Socket → Result CoreError Socket
  local_socket (some socket, v6) = ok socket
  local_socket (none, some socket) = ok socket
  local_socket (none, none) = panic

-- What `poll_recv_from` of a family answers, `none` where it is pending or has no socket.
abbrev pub first_ready {ℓ} : {A : Type ℓ} → Option A → Option A → Option A
first_ready (some a) second = some a
first_ready none second = second

-- One poll of `recv_from`: the flag `v6_first` behind it, and the answer.
unfoldable pub poll_families {ℓ} : {A : Type ℓ} → Bool → Option A → Option A → Bool × Option A
poll_families v6_first v4 v6 =
    (not v6_first, if v6_first then first_ready v6 v4 else first_ready v4 v6)
