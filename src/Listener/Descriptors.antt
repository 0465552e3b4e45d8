-- ===== src/Listener/Descriptors.antt =====
-- Which descriptors the listener leaves open for a client that connects.
use socket_dispatcher.Prelude.{
  ◌≡◌, refl, ap, ◌∙◌, inl, inr, Bool, true, false, Option, none, some, List, [], ◌∷◌, if◌then◌else◌,
  ==_refl, if-both, if-cases, Bool-cases, ℤ, is_negative, is_positive,
}
use socket_dispatcher.Socket.{
  Socket, SocketType, tcp, ssl, unix, unknown, SocketClass, plain, ssl_socket, tcp_listener_socket,
  tcp_ssl_listener_socket, unix_listener_socket,
}
use socket_dispatcher.World.{
  Ref, Os, World, Result, ok, descriptor_of, accept, ssl_accept, bio_new_socket, call,
}
use socket_dispatcher.World.Ledger.{open_descriptors, enter, take_out, take_out-enter}
use socket_dispatcher.SocketUtils.{destroy}
use socket_dispatcher.SocketFactory.Descriptors.{Leaves, Made, Leaves-from}
use socket_dispatcher.Passing.{send_socket, ensure_control}
use socket_dispatcher.Listener.{
  make_socket, accepts, accept_connection, accept_by, accept_ssl, is_dispatcher, pass_client,
  process_client_connection,
}
use socket_dispatcher.Listener.Configuration.{connection, make_socket-connection}
use socket_dispatcher.Listener.Clients.{destroy-connection}

-- The type of the sockets that a listening class makes.
abbrev accepted_type : SocketClass → SocketType
accepted_type plain = unknown
accepted_type ssl_socket = unknown
accepted_type tcp_listener_socket = tcp
accepted_type tcp_ssl_listener_socket = ssl
accepted_type (unix_listener_socket path) = unix

module _ (os : Os) where
  abbrev Accepts : ℤ → SocketType → World → Result (Option Ref × World) → Type 0
  Accepts fd t w m = Leaves os (connection fd t) w (open_descriptors os w.trace) m

  make_socket-Accepts :
      (fd : ℤ) (t : SocketType) (w : World)
      → is_negative fd ≡ false
      → Accepts fd t w (make_socket fd t w)
  make_socket-Accepts fd t w h =
      rw (make_socket-connection fd t w h)
        ((some w.next, _), refl, refl, (refl, rw (==_refl w.next)))

  accept_by-Accepts :
      (k : SocketClass) (fd : ℤ) (w : World)
      → accepts k ≡ true
      → is_negative fd ≡ false
      → Accepts fd (accepted_type k) w (accept_by k os fd w)
  unfolding accept_by accept_ssl
  accept_by-Accepts plain fd w a h = cc
  accept_by-Accepts ssl_socket fd w a h = cc
  accept_by-Accepts tcp_listener_socket fd w a h = make_socket-Accepts fd tcp w h
  accept_by-Accepts (unix_listener_socket path) fd w a h = make_socket-Accepts fd unix w h
  accept_by-Accepts tcp_ssl_listener_socket fd w a h =
      let w₂ = call (ssl_accept fd) (call (bio_new_socket fd) w) in
      if-both (Accepts fd ssl w) (is_positive (os.ssl_accepted (bio_new_socket fd ∷ w.trace) fd))
        (Leaves-from os (connection fd ssl) w w₂ (make_socket-Accepts fd ssl w₂ h) refl refl)
        ((none, w₂), refl, refl, tt)

  -- What a class makes of a connection, and what it leaves open.
  accept_connection-Leaves :
      (r : Ref) (w : World)
      → let fd = os.accepted w.trace (descriptor_of w r) in
        accepts (w.cell r).class ≡ true
        → Leaves os
            (connection fd (accepted_type (w.cell r).class))
            w
            (enter fd (open_descriptors os w.trace))
            (accept_connection os r w)
  unfolding accept_connection
  accept_connection-Leaves r w a =
      let fd = os.accepted w.trace (descriptor_of w r) in
      let k = (w.cell r).class in
      let w₁ = call (accept (descriptor_of w r)) w in
      let s = connection fd (accepted_type k) in
      rw (a, accept_connection)
        (if-cases (Leaves os s w (enter fd (open_descriptors os w.trace))) (is_negative fd)
          (λ failed. ((none, w₁), refl, refl, tt))
          λ opened. Leaves-from os s w w₁ (accept_by-Accepts k fd w₁ a opened) refl refl)

  -- Passing a client on opens and closes nothing and changes no object.
  abbrev Passes : World → World → Type 0
  Passes w w' = (w'.cell ≡ w.cell) × (open_descriptors os w'.trace ≡ open_descriptors os w.trace)

  ensure_control-Passes : (w : World) → Passes w (ensure_control os w).1
  unfolding ensure_control
  ensure_control-Passes w =
      if-both (λ (x : Bool × World). Passes w x.1) w.control_buffer (refl, refl) (refl, refl)

  send_socket-Passes : (s client : Ref) (w : World) → Passes w (send_socket os s client w).1
  unfolding send_socket ensure_control
  send_socket-Passes s client w =
      let P = λ (x : Bool × World). Passes w x.1 in
      let k = ensure_control-Passes w in
      if-both P (is_negative (descriptor_of w client)) (refl, refl)
        (if-both P (ensure_control os w).0 k k)

  pass_client-Passes :
      (client : Ref) (l : List Ref) (w : World) → Passes w (pass_client os client l w)
  unfolding pass_client
  pass_client-Passes client [] w = (refl, refl)
  pass_client-Passes client (s ∷ ss) w = elim (Bool-cases (is_dispatcher (w.cell s))) [
    | inl other_side ↦
        let sent = send_socket-Passes s client w in
        let rest = pass_client-Passes client ss (send_socket os s client w).1 in
        rw (other_side, pass_client) (rest.0 ∙ sent.0, rest.1 ∙ sent.1)
    | inr other ↦ rw (other, pass_client) (pass_client-Passes client ss w)
  ]

-- What a turn leaves open of the descriptor that `accept` gave, by what it reports.
abbrev Turned : Os → ℤ → World → Result (Bool × World) → Type 0
Turned os fd w m =
    (done : Bool) × (w' : World) × (m ≡ ok (done, w'))
    × (open_descriptors os w'.trace
        ≡ (if done then open_descriptors os w.trace else enter fd (open_descriptors os w.trace)))

Made-Turned :
    (os : Os) (fd : ℤ) (t : SocketType) (l : List Ref) (w : World) (x : Option Ref × World)
    → is_negative fd ≡ false
    → open_descriptors os x.1.trace ≡ enter fd (open_descriptors os w.trace)
    → Made (connection fd t) w x
    → Turned os fd w (elim x.0 [
      | none ↦ ok (false, x.1)
      | some client ↦ ok (true, destroy client (pass_client os client l x.1))
    ])
Made-Turned os fd t l w (none, w₁) h o made = (false, w₁, refl, o)
Made-Turned os fd t l w (some client, w₁) h o made =
    let w₂ = pass_client os client l w₁ in
    let passes = pass_client-Passes os client l w₁ in
    let same = ap (λ (cell : Ref → Socket). cell client) passes.0 ∙ made.1 in
    let closed = destroy-connection client fd t w₂ same in
    (
      true,
      destroy client w₂,
      refl,
      ap (open_descriptors os) closed
          ∙ (ap (take_out fd) (passes.1 ∙ o) ∙ take_out-enter fd (open_descriptors os w.trace) h),
    )

-- A turn with a connection at a listening socket of a class that accepts returns. If it reports
-- success it leaves open just what was open before; if not, the descriptor that `accept` gave, where
-- it gave one, stays open in addition, and nothing else.
pub process_client_connection-Leaves :
    (os : Os) (r : Ref) (l : List Ref) (w : World)
    → let fd = os.accepted w.trace (descriptor_of w r) in
      accepts (w.cell r).class ≡ true
      → (done : Bool) × (w' : World) × (process_client_connection os r l w ≡ ok (done, w'))
        × (open_descriptors os w'.trace ≡ (
            if done then open_descriptors os w.trace else enter fd (open_descriptors os w.trace)))
unfolding process_client_connection accept_connection
process_client_connection-Leaves os r l w a =
    let fd = os.accepted w.trace (descriptor_of w r) in
    elim (Bool-cases (is_negative fd)) [
      | inl failed ↦
          let w₁ = call (accept (descriptor_of w r)) w in
          let e : accept_connection os r w ≡ ok (none, w₁) =
            rw (a, accept_connection, failed) refl in
          rw e (false, w₁, refl, refl)
      | inr opened ↦
          let (x, e, o, made) = accept_connection-Leaves os r w a in
          rw e (Made-Turned os fd (accepted_type (w.cell r).class) l w x opened o made)
    ]
