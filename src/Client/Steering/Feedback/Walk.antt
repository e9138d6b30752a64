-- ===== src/Client/Steering/Feedback/Walk.antt =====
-- The search for new sockets in `apply_steering_feedback` of src/client.rs.
use rl_rust_client.Common.{
  ℕ, zero, suc, ◌≡◌, ◌⊎◌, refl, Option, none, some, Result, ok, err, panic, Ensures, Returns,
  ensures_ok, ensures_err,
}
use rl_rust_client.Error.{
  CoreError, IoError, ErrorKind, addr_in_use, addr_not_available, other_kind, io,
}
use rl_rust_client.Client.Steering.{
  steering_port_count, next_steering_port, bind_from, bind_next_steering_socket, on_bind, on_error,
}
use rl_rust_client.Client.Steering.Ports.{IsSteeringPort, next_inside, first_inside}
use rl_rust_client.Client.Steering.Feedback.{Host}

-- The port to try next: none yet, or one of the dynamic range.
abbrev pub IsNextPort : ℕ → Type 0
IsNextPort port = (port ≡ 0) ⊎ IsSteeringPort port

module _ {Sockets : Type 0} where
  -- The port that the walk binds.
  abbrev pub Bound : Host Sockets → Sockets × ℕ → Type 0
  Bound host (sockets, next) =
      (port : ℕ) × IsSteeringPort port
      × (host.bind port ≡ ok sockets)
      × (next ≡ next_steering_port port)

  on_error-Bound :
      (host : Host Sockets) (error : IoError) (kind : ErrorKind)
      (rest : Result CoreError (Sockets × ℕ))
      → Ensures (Bound host) rest
      → Ensures (Bound host) (on_error error kind rest)
  on_error-Bound host error addr_in_use rest h = h
  on_error-Bound host error addr_not_available rest h = ensures_err
  on_error-Bound host error (other_kind k) rest h = ensures_err

  on_bind-Bound :
      (host : Host Sockets) (port : ℕ) (rest : IoError → Result CoreError (Sockets × ℕ))
      (r : Result CoreError Sockets)
      → IsSteeringPort port
      → host.bind port ≡ r
      → Returns r
      → ((error : IoError) → Ensures (Bound host) (rest error))
      → Ensures (Bound host) (on_bind port rest r)
  on_bind-Bound host port rest (ok sockets) inside e h again = ensures_ok (port, inside, e, refl)
  on_bind-Bound host port rest (err (io error)) inside e h again =
      on_error-Bound host error error.kind (rest error) (again error)
  on_bind-Bound host port rest (err e') inside e h again = ensures_err
  on_bind-Bound host port rest panic inside e h again = elim h [ ]

  bind_from-Bound :
      (host : Host Sockets) (left port : ℕ) (last : Option IoError)
      → ((p : ℕ) → Returns (host.bind p))
      → IsSteeringPort port
      → Ensures (Bound host) (bind_from host.bind left port last)
  unfolding bind_from
  bind_from-Bound host zero port last returns inside = ensures_err
  bind_from-Bound host (suc left) port last returns inside =
      on_bind-Bound host port _ (host.bind port) inside refl (returns port) λ error.
        bind_from-Bound host left (next_steering_port port) (some error) returns (next_inside port)

  pub next_socket-Bound :
      (host : Host Sockets) (next current : ℕ)
      → ((p : ℕ) → Returns (host.bind p))
      → IsNextPort next
      → Ensures (Bound host) (bind_next_steering_socket host.bind next current)
  unfolding bind_next_steering_socket
  next_socket-Bound host next current returns start =
      bind_from-Bound host steering_port_count _ none returns (first_inside next current start)
