-- ===== src/Listener/Clients.antt =====
-- Where the listener sends a client that connects.
use socket_dispatcher.Prelude.{
  ◌<◌, ◌≡◌, refl, ap, ◌∙◌, inl, inr, true, false, Option, some, List, [], ◌∷◌, arith, ◌==◌,
  if◌then◌else◌, ==_refl, Bool-cases, All, ℤ, is_negative, is_positive,
}
use socket_dispatcher.Socket.{Socket, SocketType, ssl, tcp_ssl_listener_socket}
use socket_dispatcher.SocketUtils.{destroy, class_destructor}
use socket_dispatcher.Passing.{send_socket, ensure_control}
use socket_dispatcher.Listener.{
  accept_connection, accept_by, accept_ssl, is_dispatcher, pass_client, process_client_connection,
}
use socket_dispatcher.Listener.Configuration.{connection, make_socket-connection}
use socket_dispatcher.World.{
  Ref, Os, World, Trace, ok, descriptor_of, accept, ssl_accept, bio_new_socket, close, sendmsg,
  call, alloc, update,
}
use socket_dispatcher.Passing.Transfer.{control-message_for}

-- The messages sent with a descriptor, the newest first: over which descriptor, and which one.
abbrev pub passed : Trace → List (ℤ × Option ℤ)
passed [] = []
passed (sendmsg over bytes control ∷ t) = (over, control) ∷ passed t
passed (_ ∷ t) = passed t

-- A descriptor passed to every dispatcher of a list, in order, on top of earlier messages.
abbrev pub passed_to : (Ref → Socket) → ℤ → List Ref → List (ℤ × Option ℤ) → List (ℤ × Option ℤ)
passed_to cell fd [] sent = sent
passed_to cell fd (r ∷ rs) sent =
    passed_to cell fd rs
      (if is_dispatcher (cell r) then ((cell r).descriptor, some fd) ∷ sent else sent)

module _ (os : Os) (memory : (t : Trace) → os.memory_left t ≡ true) where
  send_socket-passed :
      (s client : Ref) (w : World)
      → is_negative (descriptor_of w client) ≡ false
      → let w' = (send_socket os s client w).1 in
        (w'.cell ≡ w.cell)
        × (passed w'.trace ≡ (descriptor_of w s, some (descriptor_of w client)) ∷ passed w.trace)
  unfolding send_socket ensure_control
  send_socket-passed s client w h =
      let control = control-message_for (descriptor_of w client) in
      elim (Bool-cases w.control_buffer) [
        | inl c ↦ (rw (h, c), rw (h, c) (rw (control, h)))
        | inr c ↦ (rw (h, c, memory w.trace), rw (h, c, memory w.trace) (rw (control, h)))
      ]

  pass_client-passed :
      (client : Ref) (fd : ℤ) (l : List Ref) (w : World)
      → descriptor_of w client ≡ fd
      → is_negative fd ≡ false
      → let w' = pass_client os client l w in
        (w'.cell ≡ w.cell) × (passed w'.trace ≡ passed_to w.cell fd l (passed w.trace))
  unfolding pass_client
  pass_client-passed client fd [] w e h = (refl, refl)
  pass_client-passed client fd (s ∷ ss) w e h = elim (Bool-cases (is_dispatcher (w.cell s))) [
    | inl other_side ↦
        let w₁ = (send_socket os s client w).1 in
        let sent = send_socket-passed s client w (ap is_negative e ∙ h) in
        let same = ap (λ (cell : Ref → Socket). (cell client).descriptor) sent.0 in
        let rest = pass_client-passed client fd ss w₁ (same ∙ e) h in
        rw (other_side, pass_client) (rw (sent.0, sent.1, e) at rest)
    | inr other ↦ rw (other, pass_client) (pass_client-passed client fd ss w e h)
  ]

passed_to-update :
    (n : Ref) (s : Socket) (cell : Ref → Socket) (fd : ℤ) (l : List Ref)
    (sent : List (ℤ × Option ℤ))
    → All (λ r. r < n) l
    → passed_to (update n s cell) fd l sent ≡ passed_to cell fd l sent
passed_to-update n s cell fd [] sent h = refl
passed_to-update n s cell fd (r ∷ rs) sent h =
    let other : (n == r) ≡ false = ground (arith, h.0) in
    rw other (
      passed_to-update n s cell fd rs
        (if is_dispatcher (cell r) then ((cell r).descriptor, some fd) ∷ sent else sent) h.1)

pub destroy-connection :
    (s : Ref) (fd : ℤ) (t : SocketType) (w : World)
    → w.cell s ≡ connection fd t
    → (destroy s w).trace ≡ close fd ∷ w.trace
unfolding destroy class_destructor
destroy-connection s fd t w h = rw h

accept_connection-ssl :
    (os : Os) (r : Ref) (w : World)
    → let fd = os.accepted w.trace (descriptor_of w r) in
      let w₁ = call (bio_new_socket fd) (call (accept (descriptor_of w r)) w) in
      (w.cell r).class ≡ tcp_ssl_listener_socket
      → is_negative fd ≡ false
      → is_positive (os.ssl_accepted w₁.trace fd) ≡ true
      → accept_connection os r w
        ≡ ok (some w.next, (alloc (connection fd ssl) (call (ssl_accept fd) w₁)).1)
unfolding accept_connection accept_by accept_ssl
accept_connection-ssl os r w e h g =
    let fd = os.accepted w.trace (descriptor_of w r) in
    rw (e, h)
      (rw g (
        make_socket-connection fd ssl
          (call (ssl_accept fd) (call (bio_new_socket fd) (call (accept (descriptor_of w r)) w)))
          h))

-- A client whose TCP connection and TLS handshake are accepted is passed to every dispatcher of the
-- listener's list, in the order of the list, and to nobody else; then the listener closes its own
-- descriptor of it, as the last call. The sockets of the list are older than the connection, and
-- memory does not run out.
pub process_client_connection-passed :
    (os : Os) (memory : (t : Trace) → os.memory_left t ≡ true) (r : Ref) (l : List Ref) (w : World)
    → let fd = os.accepted w.trace (descriptor_of w r) in
      (w.cell r).class ≡ tcp_ssl_listener_socket
      → is_negative fd ≡ false
      → is_positive (os.ssl_accepted (bio_new_socket fd ∷ accept (descriptor_of w r) ∷ w.trace) fd)
        ≡ true
      → All (λ s. s < w.next) l
      → (w' : World) × (t : Trace) × (process_client_connection os r l w ≡ ok (true, w'))
        × (w'.trace ≡ close fd ∷ t)
        × (passed t ≡ passed_to w.cell fd l (passed w.trace))
unfolding process_client_connection
process_client_connection-passed os memory r l w e h g older =
    let fd = os.accepted w.trace (descriptor_of w r) in
    let accepted =
      call (ssl_accept fd) (call (bio_new_socket fd) (call (accept (descriptor_of w r)) w)) in
    let w₁ = (alloc (connection fd ssl) accepted).1 in
    let w₂ = pass_client os w.next l w₁ in
    let new : w₁.cell w.next ≡ connection fd ssl = rw (==_refl w.next) in
    let done =
      pass_client-passed os memory w.next fd l w₁ (ap (λ (s : Socket). s.descriptor) new) h in
    (
      destroy w.next w₂,
      w₂.trace,
      rw (accept_connection-ssl os r w e h g),
      destroy-connection w.next fd ssl w₂ (ap (λ (cell : Ref → Socket). cell w.next) done.0 ∙ new),
      done.1 ∙ passed_to-update w.next (connection fd ssl) w.cell fd l (passed w.trace) older,
    )
