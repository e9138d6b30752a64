-- ===== src/Client/Steering.antt =====
-- The source ports that steering walks through: `next_steering_port` and `bind_next_steering_socket`
-- of src/client.rs. Whether the system binds a port is a parameter.
pub mod Feedback
pub mod Ports
use rl_rust_client.Common.{
  ℕ, zero, suc, ◌+◌, ◌-◌, ◌≤◌, ◌<◌, ◌≡◌, refl, arith, Bool, true, false, leb, ltb, ◌==◌, ◌&&◌,
  if◌then◌else◌, Option, none, some, Result, ok, err, panic, Bool-cases, inl, inr,
}
use rl_rust_client.Error.{
  CoreError, IoError, ErrorKind, addr_in_use, addr_not_available, other_kind, io,
}

abbrev pub steering_port_min : ℕ
steering_port_min = 49_152

abbrev pub steering_port_count : ℕ
steering_port_count = 65_535 - steering_port_min + 1

unfoldable pub next_steering_port : ℕ → ℕ
next_steering_port port =
    if leb steering_port_min port && ltb port 65_535 then port + 1 else steering_port_min

-- `FamilySockets::bind` by port: the sockets, or the error.
abbrev pub Bind : Type 0 → Type 0
Bind Sockets = ℕ → Result CoreError Sockets

abbrev no_port : IoError
no_port = record { kind = addr_not_available }

abbrev pub last_or_no_port : Option IoError → CoreError
last_or_no_port none = io no_port
last_or_no_port (some error) = io error

module _ {Sockets : Type 0} where
  -- One turn of the loop, by the answer of the bind; `rest` is the loop on the next candidate.
  abbrev pub on_error :
      IoError → ErrorKind → Result CoreError (Sockets × ℕ) → Result CoreError (Sockets × ℕ)
  on_error error addr_in_use rest = rest
  on_error error kind rest = err (io error)

  abbrev pub on_bind :
      ℕ
      → (IoError → Result CoreError (Sockets × ℕ))
      → Result CoreError Sockets
      → Result CoreError (Sockets × ℕ)
  on_bind candidate rest (ok sockets) = ok (sockets, next_steering_port candidate)
  on_bind candidate rest (err (io error)) = on_error error error.kind (rest error)
  on_bind candidate rest (err error) = err error
  on_bind candidate rest panic = panic

  -- The loop: the turns left, the candidate and the last error.
  unfoldable pub bind_from : Bind Sockets → ℕ → ℕ → Option IoError → Result CoreError (Sockets × ℕ)
  bind_from bind zero candidate last_error = err (last_or_no_port last_error)
  bind_from bind (suc left) candidate last_error =
      let rest : IoError → Result CoreError (Sockets × ℕ) =
        λ error. bind_from bind left (next_steering_port candidate) (some error) in
      on_bind candidate rest (bind candidate)

  unfoldable pub bind_next_steering_socket : Bind Sockets → ℕ → ℕ → Result CoreError (Sockets × ℕ)
  bind_next_steering_socket bind next_port current_port =
      bind_from bind steering_port_count
        (if next_port == 0 then next_steering_port current_port else next_port) none
