-- ===== src/Client/Sockets/Families.antt =====
-- The sockets of both families in src/client.rs, when the bind is done and when they are read.
use rl_rust_client.Common.{
  ◌≡◌, refl, ◌⊎◌, inl, inr, Bool, true, false, ◌||◌, if◌then◌else◌, Option, some, Result, ok, err,
  panic, Ensures, ensures_ok, ensures_err, Returns,
}
use rl_rust_client.Error.{CoreError}
use rl_rust_client.Client.Sockets.{Families, in_use, bind_families, local_socket, poll_families}

-- `local_addr` finds a socket.
abbrev pub HasSocket : (Socket : Type 0) → Families Socket → Type 0
HasSocket Socket sockets = Returns (local_socket sockets)

module _ (Socket : Type 0) where
  checked_in_use :
      (b : Bool) (e : CoreError) (r : Result CoreError (Families Socket))
      → Ensures (HasSocket Socket) r
      → Ensures (HasSocket Socket) (if b then err e else r)
  checked_in_use true e r h = ensures_err
  checked_in_use false e r h = h

  -- If the binds of the families return, so does that of both, and `local_addr` finds a socket among
  -- those that it answers.
  pub local_socket-bind_families :
      (v4 v6 : Result CoreError Socket)
      → Returns v4
      → Returns v6
      → Ensures (HasSocket Socket) (bind_families v4 v6)
  unfolding bind_families local_socket
  local_socket-bind_families (ok a) (ok b) h k = ensures_ok (ensures_ok tt)
  local_socket-bind_families (ok a) (err e) h k =
      checked_in_use (in_use {Socket = Socket} (err e)) _ _ (ensures_ok (ensures_ok tt))
  local_socket-bind_families (err e) (ok b) h k =
      checked_in_use (in_use {Socket = Socket} (err e) || false) _ _ (ensures_ok (ensures_ok tt))
  local_socket-bind_families (err e) (err e') h k =
      checked_in_use (in_use {Socket = Socket} (err e) || in_use {Socket = Socket} (err e')) _ _
        ensures_err
  local_socket-bind_families (ok a) panic h k = elim k [ ]
  local_socket-bind_families (err e) panic h k = elim k [ ]
  local_socket-bind_families panic v6 h k = elim h [ ]

-- Whatever the flag is, and whatever comes for the one family: a datagram that waits for the other is
-- read in one of two polls.
pub poll_families_fair :
    {A : Type 0} (v6_first : Bool) (waits : A) (r s : Option A)
    → (let (flag, first) = poll_families v6_first (some waits) r in
        (first ≡ some waits) ⊎ ((poll_families flag (some waits) s).1 ≡ some waits))
      × (let (flag, first) = poll_families v6_first r (some waits) in
          (first ≡ some waits) ⊎ ((poll_families flag s (some waits)).1 ≡ some waits))
unfolding poll_families
poll_families_fair true waits r s = (inr refl, inl refl)
poll_families_fair false waits r s = (inl refl, inr refl)
