-- ===== src/Dispatcher/Ownership.antt =====
-- The dispatcher answers for the descriptors that it receives: what its turns do to them.
pub mod Rounds
pub mod Whole
pub mod Orderly
use socket_dispatcher.Prelude.{
  ℕ, ◌-◌, ◌≡◌, refl, sym, ap, ◌∙◌, ◌≢◌, ◌⊎◌, inl, inr, Bool, true, false, Option, none, some, List,
  [], ◌∷◌, arith, ◌==◌, ==_refl, if-both, ℤ, pos, ◌==ℤ◌, is_negative, ==ℤ_false, Bytes,
}
use socket_dispatcher.Socket.{unix, hello, poll_for_write, set_client_status}
use socket_dispatcher.World.{Ref, Call, Trace, Address, Os, World, connect, recvmsg, descriptor_of}
use socket_dispatcher.World.Ledger.{brought, BringsNew}
use socket_dispatcher.World.Outcomes.{Outcome, Outcome-return, Outcome-bind, Outcome-both, AnyHalt}
use socket_dispatcher.World.Quiet.{Quiet, both-Quiet}
use socket_dispatcher.SocketsList.Distinct.{
  StartsWith, put_socket-StartsWith, del_socket-StartsWith,
}
use socket_dispatcher.Dispatcher.Kind.{
  IsUnix, IsUnix-Quiet, destroy-IsUnix, Came, receive_socket-Came, wrap_ssl-IsUnix,
}
use socket_dispatcher.World.Ownership.{Loss, Owns, Owns-Quiet}
use socket_dispatcher.World.Ownership.Steps.{joined}
use socket_dispatcher.SocketsList.{put_socket}
use socket_dispatcher.SocketsList.Delete.{contains, Distinct}
use socket_dispatcher.SocketUtils.{destroy}
use socket_dispatcher.SocketUtils.Quiet.{write_message-keeps}
use socket_dispatcher.SocketUtils.Holding.{held, put-Holds, del-Holds}
use socket_dispatcher.Poller.Bounds.{IsPollable, put_socket-IsPollable, del_socket-IsPollable}
use socket_dispatcher.Client.{process_client}
use socket_dispatcher.Client.Quiet.{process_client-keeps}
use socket_dispatcher.Passing.Ownership.{
  Received, Wrapped, receive_socket-Received, wrap_ssl-Wrapped,
}
use socket_dispatcher.Dispatcher.{
  Dispatcher, busy_message, enter_client, wrap_client, receive_client, serve_client,
}

-- A call that leaves a descriptor open for good: a `connect` that fails, or a message that brings
-- descriptor 0.
abbrev LeftBy : Os → Call → Trace → ℤ → Type 0
LeftBy os c t fd =
    ((a : Address) × (c ≡ connect fd a) × (is_negative (os.connected t fd a) ≡ true))
    ⊎ ((s : ℤ) × (c ≡ recvmsg s) × (brought (os.message_received t s) ≡ pos 0) × (fd ≡ pos 0))

abbrev pub LeftOpen : Os → Trace → ℤ → Type 0
LeftOpen os [] fd = ⊥
LeftOpen os (c ∷ t) fd = LeftBy os c t fd ⊎ LeftOpen os t fd

abbrev pub left_open : Os → Loss
left_open os = record { lost = LeftOpen os; grows = λ c t fd h. inr h }

module _ (os : Os) (stack : Bytes) (fuel : ℕ) where
  abbrev live_in : List Ref → Dispatcher → Ref → Bool
  live_in ready d = held (d.unix_socket ∷ []) ready d.sockets.sockets

  -- The pointer to the UNIX socket and the two lists answer for the open descriptors, and the socket
  -- is of its type.
  abbrev pub Answers : List Ref → Dispatcher → World → Type 0
  Answers ready d w = Owns os (live_in ready d) (left_open os) w × IsUnix d.unix_socket w

  pub quietly : (ready : List Ref) (d : Dispatcher) → Quiet (Answers ready d)
  quietly ready d =
      both-Quiet (Owns-Quiet os (live_in ready d) (left_open os)) (IsUnix-Quiet d.unix_socket)

  -- The lists, the second of which is `ready`: the first starts with the UNIX socket, and neither has
  -- an object twice.
  pub record Owned (ready : List Ref) (d : Dispatcher) : Type 0 where
    pub found : d.ready.sockets ≡ ready
    pub ready_once : Distinct ready
    pub small : IsPollable d.sockets
    pub once : Distinct d.sockets.sockets
    pub first : StartsWith d.unix_socket d.sockets.sockets
    pub answers : Answers ready d d.world

  abbrev pub OwnedWith : List Ref → Bool × Dispatcher → Type 0
  OwnedWith ready x = Owned ready x.1

  -- A step that leaves the lists alone.
  pub moved :
      (ready : List Ref) (d : Dispatcher) (w : World)
      → Owned ready d
      → Answers ready d w
      → Owned ready (record d { world = w })
  moved ready d w h k = record {
    found = h.found;
    ready_once = h.ready_once;
    small = h.small;
    once = h.once;
    first = h.first;
    answers = k;
  }

  pub serve_client-Owned :
      (ready : List Ref) (r : Ref) (d : Dispatcher)
      → contains r ready ≡ true
      → (d.world.cell r).socket_type ≢ unix
      → Owned ready d
      → Owned ready (serve_client os stack fuel r d)
  unfolding serve_client
  serve_client-Owned ready r d m client h =
      let w = (process_client os r d.world).1 in
      let k = process_client-keeps (Answers ready d) (quietly ready d) os r d.world h.answers in
      let u = d.unix_socket in
      let fd = descriptor_of w in
      let other : (fd u ==ℤ fd r) ≡ false = ==ℤ_false (fd u) (fd r) λ e.
        let same : u ≡ r = k.0.apart u r (rw (==_refl u) refl) (rw m (ground arith)) e in
        client (sym (ap (λ (x : Ref). (d.world.cell x).socket_type) same) ∙ h.answers.1.1) in
      let kept = del-Holds os (left_open os) (u ∷ []) ready r d.sockets w m (h.once, k.0) in
      if-both (Owned ready) (process_client os r d.world).0 (moved ready d w h k) (record {
        found = h.found;
        ready_once = h.ready_once;
        small = del_socket-IsPollable (descriptor_of w) r d.sockets h.small;
        once = kept.0;
        first = del_socket-StartsWith fd u r d.sockets other h.first;
        answers = (kept.1, k.1);
      })

  -- The client that comes is entered in the list or goes away.
  enter_client-Owned :
      (ready : List Ref) (r : Ref) (d : Dispatcher) (w : World)
      → Owned ready d
      → live_in ready d r ≡ false
      → Owns os (joined r (live_in ready d)) (left_open os) w
      → IsUnix d.unix_socket w
      → Owned ready (enter_client os stack fuel r (record d { world = w }))
  unfolding enter_client
  enter_client-Owned ready r d w h new k t =
      let live = joined r (live_in ready d) in
      let u = d.unix_socket in
      let Q = λ (v : World). Owns os live (left_open os) v × IsUnix u v in
      let q = both-Quiet (Owns-Quiet os live (left_open os)) (IsUnix-Quiet u) in
      let told =
        if-both Q (put_socket r d.sockets).0 (k, t)
          (write_message-keeps Q q os r busy_message w (k, t)) in
      let marked =
        q.changes (set_client_status hello) r _ (λ s. (refl, refl, refl, refl, refl))
          (q.changes poll_for_write r _ (λ s. (refl, refl, refl, refl, refl)) told) in
      let kept = put-Holds os (left_open os) (u ∷ []) ready r d.sockets _ new h.once marked.0 in
      record {
        found = h.found;
        ready_once = h.ready_once;
        small = put_socket-IsPollable r d.sockets h.small;
        once = kept.0;
        first = put_socket-StartsWith u r d.sockets h.first;
        answers = (
          kept.1,
          if-both (IsUnix u) (put_socket r d.sockets).0 marked.1 (destroy-IsUnix u r _ marked.1),
        );
      }

  module _ (fresh : BringsNew os) where
    zero_left :
        (t : Trace) (fd : ℤ)
        → brought (os.message_received t fd) ≡ pos 0
        → LeftOpen os (recvmsg fd ∷ t) (pos 0)
    zero_left t fd e = inl (inr (fd, refl, e, refl))

    wrap_client-Owned :
        (ready : List Ref) (found : Option Ref) (d : Dispatcher) (w : World)
        → Owned ready d
        → Received os (live_in ready d) (left_open os) zero_left (found, w)
        → IsUnix d.unix_socket w
        → Outcome AnyHalt
            (OwnedWith ready)
            (wrap_client os stack fuel found (record d { world = w }))
    unfolding wrap_client
    wrap_client-Owned ready none d w h k t =
        Outcome-return AnyHalt (OwnedWith ready) (moved ready d w h (k, t))
    wrap_client-Owned ready (some r) d w h k t =
        let W = Wrapped os (live_in ready d) (left_open os) zero_left r in
        let T = λ (x : Ref × World). IsUnix d.unix_socket x.1 in
        Outcome-bind AnyHalt (λ (x : Ref × World). W x × T x) (OwnedWith ready) _ _
          (Outcome-both AnyHalt W T _
            (wrap_ssl-Wrapped os (live_in ready d) (left_open os) zero_left d.globals.context r w k)
            (wrap_ssl-IsUnix d.unix_socket d.globals.context r w t))
          λ wrapped k'. Outcome-return AnyHalt (OwnedWith ready) (
            enter_client-Owned ready wrapped.0 d (destroy r wrapped.1) h k'.0.0 k'.0.1
              (destroy-IsUnix d.unix_socket r wrapped.1 k'.1))

    pub receive_client-Owned :
        (ready : List Ref) (d : Dispatcher)
        → Owned ready d
        → Outcome AnyHalt (OwnedWith ready) (receive_client os stack fuel d)
    unfolding receive_client
    receive_client-Owned ready d h =
        let R = Received os (live_in ready d) (left_open os) zero_left in
        let T = Came d.unix_socket in
        Outcome-bind AnyHalt (λ (x : Option Ref × World). R x × T x) (OwnedWith ready) _ _
          (Outcome-both AnyHalt R T _
            (receive_socket-Received os (live_in ready d) (left_open os) zero_left fresh fuel
              d.unix_socket d.world h.answers.0)
            (receive_socket-Came d.unix_socket os fuel d.unix_socket d.world h.answers.1))
          λ received k. wrap_client-Owned ready received.0 d received.1 h k.0 k.1
