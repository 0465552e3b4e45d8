-- ===== src/Listener/Ownership.antt =====
-- The listener answers for the descriptors that it opens: what its turn with a new connection does
-- to them.
pub mod Turns
use socket_dispatcher.Prelude.{
  ◌-◌, ◌≡◌, refl, ◌⊎◌, inl, inr, Bool, false, not, Option, none, some, List, [], ◌∷◌, if-both,
  if-cases, ℤ, is_negative, is_positive,
}
use socket_dispatcher.Socket.{
  SocketType, tcp, ssl, unix, SocketClass, plain, ssl_socket, tcp_listener_socket,
  tcp_ssl_listener_socket, unix_listener_socket,
}
use socket_dispatcher.World.{
  Ref, Trace, Os, World, accept, ssl_accept, bio_new_socket, call, descriptor_of,
}
use socket_dispatcher.World.Ledger.{IsFresh}
use socket_dispatcher.World.Outcomes.{
  Outcome, Outcome-return, Outcome-halt, Outcome-bind, Outcome-option, AnyHalt,
}
use socket_dispatcher.World.Ownership.{Loss, Owns, Owns-Quiet, unchanged-Owns}
use socket_dispatcher.World.Ownership.Steps.{
  Pending, Pending-Quiet, enter-Pending, Pending-lost, alloc-Owns, joined, next-is_new,
}
use socket_dispatcher.SocketUtils.Holding.{leave}
use socket_dispatcher.Listener.{
  accepts, accept_connection, accept_by, accept_ssl, make_socket, process_client_connection,
}
use socket_dispatcher.Listener.Quiet.{pass_client-keeps}
use socket_dispatcher.Listener.Configuration.{connection, make_socket-connection}

-- A TLS handshake over the descriptor has failed.
abbrev pub HandshakeFailed : Os → Trace → ℤ → Type 0
HandshakeFailed os [] fd = ⊥
HandshakeFailed os (c ∷ t) fd =
    ((c ≡ ssl_accept fd) × (is_positive (os.ssl_accepted t fd) ≡ false)) ⊎ HandshakeFailed os t fd

-- This leaves it open with no object.
abbrev pub failed_handshakes : Os → Loss
failed_handshakes os = record { lost = HandshakeFailed os; grows = λ c t fd h. inr h }

module _ (os : Os) where
  -- The objects of `live` answer for all descriptors that are open but those of failed handshakes.
  abbrev pub Answers : (Ref → Bool) → World → Type 0
  Answers live = Owns os live (failed_handshakes os)

  -- An accepted socket, if there is one, is new and answers for its descriptor.
  abbrev pub Accepted : (Ref → Bool) → Option Ref × World → Type 0
  Accepted live (none, w) = Answers live w
  Accepted live (some s, w) = (live s ≡ false) × Answers (joined s live) w

  module _ (live : Ref → Bool) where
    abbrev Waits : ℤ → World → Type 0
    Waits fd = Pending os live (failed_handshakes os) fd

    make_socket-Accepted :
        (fd : ℤ) (t : SocketType) (w : World)
        → is_negative fd ≡ false
        → Waits fd w
        → Outcome AnyHalt (Accepted live) (make_socket fd t w)
    make_socket-Accepted fd t w n h = rw (make_socket-connection fd t w n) (
        Outcome-return AnyHalt (Accepted live) (
          next-is_new os live _ w h.others,
          alloc-Owns os live (failed_handshakes os) (connection fd t) w refl h,
        ))

    accept_by-Accepted :
        (k : SocketClass) (fd : ℤ) (w : World)
        → is_negative fd ≡ false
        → Waits fd w
        → Outcome AnyHalt (Accepted live) (accept_by k os fd w)
    unfolding accept_by accept_ssl
    accept_by-Accepted plain fd w n h = Outcome-halt AnyHalt (Accepted live) tt
    accept_by-Accepted ssl_socket fd w n h = Outcome-halt AnyHalt (Accepted live) tt
    accept_by-Accepted tcp_listener_socket fd w n h = make_socket-Accepted fd tcp w n h
    accept_by-Accepted (unix_listener_socket path) fd w n h = make_socket-Accepted fd unix w n h
    accept_by-Accepted tcp_ssl_listener_socket fd w n h =
        let q = Pending-Quiet os live (failed_handshakes os) fd in
        let w₁ = call (bio_new_socket fd) w in
        let k = q.calls (ssl_accept fd) w₁ refl (q.calls (bio_new_socket fd) w refl h) in
        if-cases (Outcome AnyHalt (Accepted live)) (is_positive (os.ssl_accepted w₁.trace fd))
          (λ good. make_socket-Accepted fd ssl (call (ssl_accept fd) w₁) n k)
          λ bad. Outcome-return AnyHalt (Accepted live) (
            Pending-lost os live (failed_handshakes os) fd (call (ssl_accept fd) w₁)
              (inl (refl, bad)) k)

    pub accept_connection-Accepted :
        IsFresh os
        → (r : Ref) (w : World) → Answers live w
        → Outcome AnyHalt (Accepted live) (accept_connection os r w)
    unfolding accept_connection
    accept_connection-Accepted fresh r w h =
        let fd = descriptor_of w r in
        let new_fd = os.accepted w.trace fd in
        if-both (Outcome AnyHalt (Accepted live)) (not (accepts (w.cell r).class))
          (Outcome-halt AnyHalt (Accepted live) tt)
          (if-cases (Outcome AnyHalt (Accepted live)) (is_negative new_fd)
            (λ failed. Outcome-return AnyHalt (Accepted live) (
              unchanged-Owns os live (failed_handshakes os) (accept fd) w (rw failed refl)
                (tt, h.tidy) h))
            λ opened. accept_by-Accepted (w.cell r).class new_fd (call (accept fd) w) opened (
              enter-Pending os live (failed_handshakes os) new_fd (accept fd) w opened refl
                (tt, h.tidy) (fresh.accepted w.trace fd) h))

    pub process_client_connection-Answers :
        IsFresh os
        → (r : Ref) (l : List Ref) (w : World) → Answers live w
        → Outcome AnyHalt
            (λ (done : Bool × World). Answers live done.1)
            (process_client_connection os r l w)
    unfolding process_client_connection
    process_client_connection-Answers fresh r l w h =
        let Done = λ (done : Bool × World). Answers live done.1 in
        Outcome-bind AnyHalt (Accepted live) Done _ _ (accept_connection-Accepted fresh r w h)
          λ accepted k.
            Outcome-option AnyHalt (λ (o : Option Ref). Accepted live (o, accepted.1)) Done
              accepted.0 _ _ k (λ k'. Outcome-return AnyHalt Done k')
              λ client k'.
                let A = Answers (joined client live) in
                let passes = Owns-Quiet os (joined client live) (failed_handshakes os) in
                Outcome-return AnyHalt Done (
                  leave os (failed_handshakes os) live client _ k'.0
                    (pass_client-keeps A passes os client l accepted.1 k'.1))
