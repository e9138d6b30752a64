-- ===== src/Client/Steering/Feedback/Rebind.antt =====
-- What the holder of the locks leaves in `apply_steering_feedback` of src/client.rs.
use rl_rust_client.Common.{
  some_inj, Bool-cases, if◌then◌else◌, arith, ◌==◌, ℕ, ◌+◌, ◌%◌, ◌^◌, ◌≡◌, ◌≢◌, ◌⊎◌, inl, inr, refl,
  ap, subst, Option, none, some, Result, ok, err, panic, Ensures, Returns, ensures_ok, ensures_err,
}
use rl_rust_client.Error.{CoreError}
use rl_rust_client.Client.Steering.{next_steering_port, bind_next_steering_socket}
use rl_rust_client.Client.Steering.Ports.{IsSteeringPort}
use rl_rust_client.Client.Steering.Feedback.{
  Steering, Host, count_feedback, replace_socket, plan_port, is_new_port, note_port, or_stop,
  rebind,
}
use rl_rust_client.Client.Steering.Feedback.Walk.{IsNextPort, Bound, next_socket-Bound}

-- The count of the changes goes on by one where the port is not the last one.
abbrev pub Changes : Option ℕ → ℕ → ℕ → ℕ → Type 0
Changes last port old new =
    ((last ≡ some port) × (new ≡ old)) ⊎ ((last ≢ some port) × (new ≡ old + 1))

is_new_port-Changes :
    (last : Option ℕ) (port old : ℕ)
    → Changes last port old (old + (if is_new_port last port then 1 else 0))
is_new_port-Changes none port old = inr (λ e. absurd (cc), omega arith)
is_new_port-Changes (some l) port old = elim (Bool-cases (l == port)) [
  | inl e ↦ rw e (inl (ap some (ground arith), omega arith))
  | inr e ↦ rw e (inr (λ h. let same = some_inj l port h in absurd (ground arith), omega arith))
]

-- The sockets that were found, with the port to try next.
abbrev moved_to : {Sockets : Type 0} → Steering Sockets → Sockets × ℕ → Steering Sockets
moved_to s (sockets, next) = replace_socket (plan_port s next) sockets

module _ {Sockets : Type 0} where
  -- What the system documents: a bind returns, the sockets have the port that was asked for, and the
  -- port of the current ones is not bound again.
  pub record IsHost (host : Host Sockets) (s : Steering Sockets) : Type 0 where
    pub bind_returns : (port : ℕ) → Returns (host.bind port)
    pub port_returns : (sockets : Sockets) → Returns (host.port_of sockets)
    pub ack_returns : Returns host.acknowledged
    pub asked :
        (port : ℕ) (sockets : Sockets)
        → IsSteeringPort port
        → host.bind port ≡ ok sockets
        → host.port_of sockets ≡ ok port
    pub exclusive :
        (port : ℕ) (sockets : Sockets)
        → host.port_of s.socket ≡ ok port
        → host.bind port ≢ ok sockets

  -- The sockets are replaced by some on another port.
  pub record Moved (host : Host Sockets) (s s' : Steering Sockets) : Type 0 where
    pub port : ℕ
    pub is_port : host.port_of s'.socket ≡ ok port
    pub in_range : IsSteeringPort port
    pub is_other : (old : ℕ) → host.port_of s.socket ≡ ok old → port ≢ old
    pub goes_on : s'.stats.next_port ≡ next_steering_port port
    pub new_epoch : s'.epoch ≡ (s.epoch + 1) % 2 ^ 64

  -- The last port and the count of the changes are as before.
  abbrev pub Unnoted : Steering Sockets → Steering Sockets → Type 0
  Unnoted s s' =
      (s'.stats.last_port ≡ s.stats.last_port) × (s'.stats.port_changes ≡ s.stats.port_changes)

  -- The sockets are as before.
  abbrev pub Stayed : Steering Sockets → Steering Sockets → Type 0
  Stayed s s' =
      (s'.socket ≡ s.socket)
      × (s'.epoch ≡ s.epoch)
      × (s'.stats.next_port ≡ s.stats.next_port)
      × Unnoted s s'

  -- The port of the sockets is noted, and counted if it is not the last one.
  abbrev pub Noted : Host Sockets → Steering Sockets → Steering Sockets → Type 0
  Noted host s s' =
      (port : ℕ) × (host.port_of s'.socket ≡ ok port)
      × (s'.stats.last_port ≡ some port)
      × Changes s.stats.last_port port s.stats.port_changes s'.stats.port_changes

  -- How an error leaves the sockets: as before, if the port of the old ones or the search for new
  -- ones failed; moved, if the acknowledgement failed.
  abbrev pub Failed : Host Sockets → Steering Sockets → Steering Sockets → CoreError → Type 0
  Failed host s s' e =
      (Stayed s s'
        × ((host.port_of s.socket ≡ err e)
            ⊎ ((current : ℕ) × (host.port_of s.socket ≡ ok current)
                × (bind_next_steering_socket host.bind s.stats.next_port current ≡ err e))))
      ⊎ (Moved host s s' × Unnoted s s' × (host.acknowledged ≡ err e))

  -- What holds of the end.
  abbrev pub Outcome :
      Host Sockets → Steering Sockets → Steering Sockets × Result CoreError (Unit {0}) → Type 0
  Outcome host s (s', ok _) = Moved host s s' × Noted host s s'
  Outcome host s (s', err e) = Failed host s s' e
  Outcome host s (s', panic) = ⊥

  Outcome-or_stop :
      {A : Type 0} {P : A → Type 0} (host : Host Sockets) (s t : Steering Sockets)
      (m : Result CoreError A) (f : A → Steering Sockets × Result CoreError (Unit {0}))
      → Ensures P m
      → ((e : CoreError) → m ≡ err e → Failed host s t e)
      → ((a : A) → m ≡ ok a → P a → Outcome host s (f a))
      → Outcome host s (or_stop t m f)
  Outcome-or_stop host s t m f (ensures_ok {a = a} h) stop go = go a refl h
  Outcome-or_stop host s t m f (ensures_err {e = e}) stop go = stop e refl

  Bound-Moved :
      (host : Host Sockets) (s t : Steering Sockets) (bound : Sockets × ℕ)
      → IsHost host s
      → Bound host bound
      → t.epoch ≡ s.epoch
      → Moved host s (moved_to t bound)
  Bound-Moved host s t (sockets, next) v (port, inside, e, behind) same = record {
    port = port;
    is_port = v.asked port sockets inside e;
    in_range = inside;
    is_other = λ old current h.
        v.exclusive old sockets current (subst (λ p. host.bind p ≡ ok sockets) h e);
    goes_on = behind;
    new_epoch = ap (λ x. (x + 1) % 2 ^ 64) same;
  }

  noted-Moved :
      (host : Host Sockets) (s t : Steering Sockets) (actual : ℕ)
      → Moved host s t
      → Moved host s (note_port t actual)
  noted-Moved host s t actual m = record {
    port = m.port;
    is_port = m.is_port;
    in_range = m.in_range;
    is_other = m.is_other;
    goes_on = m.goes_on;
    new_epoch = m.new_epoch;
  }

  -- The count of the feedbacks.
  abbrev counts : Steering Sockets → ℕ
  counts t = t.stats.feedback_zero_count

  or_stop-counts :
      {A : Type 0} (n : ℕ) (t : Steering Sockets) (m : Result CoreError A)
      (f : A → Steering Sockets × Result CoreError (Unit {0}))
      → counts t ≡ n
      → ((a : A) → counts (f a).0 ≡ n)
      → counts (or_stop t m f).0 ≡ n
  or_stop-counts n t (ok a) f h go = go a
  or_stop-counts n t (err e) f h go = h
  or_stop-counts n t panic f h go = h

  pub rebind_counts :
      (host : Host Sockets) (s : Steering Sockets)
      → (rebind host s).0.stats.feedback_zero_count ≡ s.stats.feedback_zero_count + 1
  unfolding rebind
  rebind_counts host s =
      or_stop-counts (s.stats.feedback_zero_count + 1) (count_feedback s) (host.port_of s.socket) _
        refl
        λ current.
          or_stop-counts (s.stats.feedback_zero_count + 1) (count_feedback s)
            (bind_next_steering_socket host.bind s.stats.next_port current) _ refl
            λ bound.
              or_stop-counts (s.stats.feedback_zero_count + 1) (moved_to (count_feedback s) bound)
                (host.port_of bound.0) _ refl
                λ actual.
                  or_stop-counts (s.stats.feedback_zero_count + 1)
                    (moved_to (count_feedback s) bound) host.acknowledged _ refl λ _. refl

  -- Where the system answers without a panic, gives sockets the dynamic port that was asked for and
  -- does not bind the current port again, and the port to try next is none or one of the dynamic range:
  -- applying a feedback does not panic and counts it. If it succeeds, the sockets are on another
  -- port, of that range, the next port is behind it, and the epoch has gone on by one; that port is
  -- noted as the last one, and counted as a change exactly if it was not the last one before. If it
  -- fails, the last port and the count of changes are as before: if the port of the old sockets or
  -- the search for new ones failed, the sockets, the epoch and the next port are as before, too; and
  -- otherwise the acknowledgement failed, and these have moved as in a success.
  pub rebind-Outcome :
      (host : Host Sockets) (s : Steering Sockets)
      → IsHost host s
      → IsNextPort s.stats.next_port
      → Outcome host s (rebind host s)
        × ((rebind host s).0.stats.feedback_zero_count ≡ s.stats.feedback_zero_count + 1)
  unfolding rebind
  rebind-Outcome host s v start = (
    Outcome-or_stop host s counted (host.port_of s.socket) _ (v.port_returns s.socket)
        (λ e failed. inl (unmoved, inl failed))
        λ current is_current _.
          Outcome-or_stop host s counted
            (bind_next_steering_socket host.bind s.stats.next_port current) _
            (next_socket-Bound host s.stats.next_port current v.bind_returns start)
            (λ e failed. inl (unmoved, inr (current, is_current, failed)))
            λ bound _ is_bound.
              let moved = Bound-Moved host s counted bound v is_bound refl in
              Outcome-or_stop host s (moved_to counted bound) (host.port_of bound.0) _
                (v.port_returns bound.0) (λ e failed. absurd (no_error moved.is_port failed))
                λ actual is_actual _.
                  Outcome-or_stop host s (moved_to counted bound) host.acknowledged _ v.ack_returns
                    (λ e failed. inr (moved, (refl, refl), failed))
                    λ _ _ _. (
                      noted-Moved host s (moved_to counted bound) actual moved,
                      (
                        actual,
                        is_actual,
                        refl,
                        is_new_port-Changes s.stats.last_port actual s.stats.port_changes,
                      ),
                    ),
    rebind_counts host s,
  )
    where
      counted : Steering Sockets
      counted = count_feedback s

      unmoved : Stayed s counted
      unmoved = (refl, refl, refl, (refl, refl))

      no_error : {m : Result CoreError ℕ} {a : ℕ} {e : CoreError} → m ≡ ok a → m ≡ err e → ⊥
      no_error h k = absurd (cc)
