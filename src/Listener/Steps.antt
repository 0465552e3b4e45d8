-- ===== src/Listener/Steps.antt =====
-- What `processSockets` keeps, and where it can halt.
use mathlib.Core.Path.{subst}
use socket_dispatcher.Prelude.{
  ◌≡◌, refl, sym, Bool, true, false, not, Option, List, [], ◌∷◌, arith, ltb, if-both, if-cases,
  elim-both, length, ℤ, is_negative, is_positive, Bytes,
}
use socket_dispatcher.Socket.{
  SocketType, tcp, ssl, unix, unknown, SocketClass, plain, ssl_socket, tcp_listener_socket,
  tcp_ssl_listener_socket, unix_listener_socket, is_dropped,
}
use socket_dispatcher.World.{
  Ref, Os, World, Halt, assertion_failed, accept, ssl_accept, bio_new_socket, call, descriptor_of,
}
use socket_dispatcher.World.Outcomes.{
  Outcome, Outcome-return, Outcome-halt, Outcome-bind, Outcome-option, Outcome-map,
}
use socket_dispatcher.SocketsList.{SocketsList, put_socket, del_socket}
use socket_dispatcher.Config.{ApplicationConfig}
use socket_dispatcher.Listener.{
  accepts, accept_connection, accept_by, accept_ssl, make_socket, process_client_connection,
  config_message, process_dispatcher_connection, process_listener, process_sockets,
}
use socket_dispatcher.Listener.Configuration.{make_socket-connection}
use socket_dispatcher.Listener.Stable.{Stable, Stable-Quiet, destroy-keeps}
use socket_dispatcher.Listener.Quiet.{pass_client-keeps, send_config-keeps}

-- Where assertions may fail: at a listening socket of a class that does not accept, and at a
-- configuration that does not fit its buffer.
pub record Excuses (Q : World → Type 0) (H : Halt → Type 0) (pid : Bytes) (c : ApplicationConfig)
    : Type 0 where
  pub at_class :
      (r : Ref) (w : World)
      → Q w
      → (w.cell r).listen_socket ≡ true
      → accepts (w.cell r).class ≡ false
      → H assertion_failed
  pub at_config : ltb (length (config_message pid c)) 4096 ≡ false → H assertion_failed

-- A property of lists that every `putSocket` and `delSocket` keeps.
pub record ListStable (P : SocketsList → Type 0) : Type 0 where
  pub puts : (r : Ref) (l : SocketsList) → P l → P (put_socket r l).1
  pub dels : (d : Ref → ℤ) (r : Ref) (l : SocketsList) → P l → P (del_socket d r l).1

-- Both properties, of what a step leaves.
abbrev pub Kept : (SocketsList → Type 0) → (World → Type 0) → SocketsList × World → Type 0
Kept P Q r = P r.0 × Q r.1

module _ (P : SocketsList → Type 0) (lists : ListStable P) (Q : World → Type 0) (q : Stable Q)
    (H : Halt → Type 0) (os : Os) (pid : Bytes) (c : ApplicationConfig)
    (x : Excuses Q H pid c) where
  abbrev Accepted : Option Ref × World → Type 0
  Accepted r = Q r.1

  abbrev KeptWith : Bool × SocketsList × World → Type 0
  KeptWith r = P r.1 × Q r.2

  make_socket-keeps :
      (fd : ℤ) (t : SocketType) (w : World)
      → is_negative fd ≡ false
      → Q w
      → Outcome H Accepted (make_socket fd t w)
  make_socket-keeps fd t w n h =
      rw (make_socket-connection fd t w n) (Outcome-return H Accepted (q.connections fd t w h))

  accept_by-keeps :
      (k : SocketClass) (fd : ℤ) (w : World)
      → accepts k ≡ true
      → is_negative fd ≡ false
      → Q w
      → Outcome H Accepted (accept_by k os fd w)
  unfolding accept_by accept_ssl
  accept_by-keeps plain fd w a n h = cc
  accept_by-keeps ssl_socket fd w a n h = cc
  accept_by-keeps tcp_listener_socket fd w a n h = make_socket-keeps fd tcp w n h
  accept_by-keeps (unix_listener_socket path) fd w a n h = make_socket-keeps fd unix w n h
  accept_by-keeps tcp_ssl_listener_socket fd w a n h =
      let w₁ = call (bio_new_socket fd) w in
      let k = q.calls (ssl_accept fd) w₁ (q.calls (bio_new_socket fd) w h) in
      if-both (Outcome H Accepted) (is_positive (os.ssl_accepted w₁.trace fd))
        (make_socket-keeps fd ssl (call (ssl_accept fd) w₁) n k) (Outcome-return H Accepted k)

  accept_connection-keeps :
      (r : Ref) (w : World)
      → (w.cell r).listen_socket ≡ true
      → Q w
      → Outcome H Accepted (accept_connection os r w)
  unfolding accept_connection
  accept_connection-keeps r w l h =
      let k = q.calls (accept (descriptor_of w r)) w h in
      if-cases (Outcome H Accepted) (not (accepts (w.cell r).class))
        (λ bad. Outcome-halt H Accepted (x.at_class r w h l (ground arith)))
        λ good.
          if-cases (Outcome H Accepted) (is_negative (os.accepted w.trace (descriptor_of w r)))
            (λ failed. Outcome-return H Accepted k)
            λ opened.
              accept_by-keeps (w.cell r).class (os.accepted w.trace (descriptor_of w r))
                (call (accept (descriptor_of w r)) w) (ground arith) opened k

  process_client_connection-keeps :
      (r : Ref) (l : List Ref) (w : World)
      → (w.cell r).listen_socket ≡ true
      → Q w
      → Outcome H (λ (done : Bool × World). Q done.1) (process_client_connection os r l w)
  unfolding process_client_connection
  process_client_connection-keeps r l w on h =
      let Done = λ (done : Bool × World). Q done.1 in
      Outcome-bind H Accepted Done _ _ (accept_connection-keeps r w on h) λ accepted k.
        Outcome-option H (λ _. Q accepted.1) Done accepted.0 _ _ k (λ k'. Outcome-return H Done k')
          λ client k'. Outcome-return H Done (
            destroy-keeps Q q client _
              (pass_client-keeps Q (Stable-Quiet Q q) os client l accepted.1 k'))

  process_dispatcher_connection-keeps :
      (r : Ref) (l : SocketsList) (w : World)
      → (w.cell r).listen_socket ≡ true
      → P l
      → Q w
      → Outcome H KeptWith (process_dispatcher_connection os pid c r l w)
  unfolding process_dispatcher_connection
  process_dispatcher_connection-keeps r l w on p h =
      Outcome-bind H Accepted KeptWith _ _ (accept_connection-keeps r w on h) λ accepted k.
        Outcome-option H (λ _. Q accepted.1) KeptWith accepted.0 _ _ k
          (λ k'. Outcome-return H KeptWith (p, k'))
          λ s k'.
            Outcome-map H (λ (y : Bool × SocketsList × World). (y.1 ≡ (put_socket s l).1) × Q y.2)
              KeptWith _
              (send_config-keeps Q (Stable-Quiet Q q) H Q os pid c s (put_socket s l).0
                (put_socket s l).1 accepted.1 x.at_config
                (λ v k. if-both Q (put_socket s l).0 k (destroy-keeps Q q s v k)) k')
              λ sent k. (subst P (sym k.0) (lists.puts s l p), k.1)

  process_listener-keeps :
      (t : SocketType) (on : Bool) (r : Ref) (l : SocketsList) (w : World)
      → (w.cell r).listen_socket ≡ on
      → P l
      → Q w
      → Outcome H (Kept P Q) (process_listener os pid c t on r l w)
  unfolding process_listener
  process_listener-keeps tcp true r l w on p h =
      Outcome-bind H (λ (done : Bool × World). Q done.1) (Kept P Q) _ _
        (process_client_connection-keeps r l.sockets w on h)
        λ done k. Outcome-return H (Kept P Q) (p, k)
  process_listener-keeps unix true r l w on p h =
      Outcome-bind H KeptWith (Kept P Q) _ _ (process_dispatcher_connection-keeps r l w on p h)
        λ done k. Outcome-return H (Kept P Q) k
  process_listener-keeps ssl true r l w on p h = Outcome-return H (Kept P Q) (p, h)
  process_listener-keeps unknown true r l w on p h = Outcome-return H (Kept P Q) (p, h)
  process_listener-keeps tcp false r l w on p h = Outcome-return H (Kept P Q) (p, h)
  process_listener-keeps unix false r l w on p h = Outcome-return H (Kept P Q) (p, h)
  process_listener-keeps ssl false r l w on p h = Outcome-return H (Kept P Q) (p, h)
  process_listener-keeps unknown false r l w on p h = Outcome-return H (Kept P Q) (p, h)

  pub process_sockets-keeps :
      (rs : List Ref) (l : SocketsList) (w : World)
      → P l
      → Q w
      → Outcome H (Kept P Q) (process_sockets os pid c rs l w)
  unfolding process_sockets
  process_sockets-keeps [] l w p h = Outcome-return H (Kept P Q) (p, h)
  process_sockets-keeps (r ∷ rs) l w p h =
      elim-both (Outcome H (Kept P Q)) (is_dropped (w.cell r))
        (process_sockets-keeps rs _ w (lists.dels (descriptor_of w) r l p) h)
        (Outcome-bind H (Kept P Q) (Kept P Q) _ _
          (process_listener-keeps (w.cell r).socket_type (w.cell r).listen_socket r l w refl p h)
          λ done k. process_sockets-keeps rs done.0 done.1 k.0 k.1)
