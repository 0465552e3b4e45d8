-- ===== src/Poller/Bounds.antt =====
-- Lists that the poller accepts: within their bound, and the bound within `MAX_SOCKETS_TO_POLL`.
use socket_dispatcher.Prelude.{◌≤◌, ◌≡◌, Bool, true, arith, leb, if-both, length, ℤ}
use socket_dispatcher.World.{Ref, Os, World}
use socket_dispatcher.World.Outcomes.{Outcome, NoAssertion, Outcome-return}
use socket_dispatcher.SocketsList.{SocketsList, put_socket, del_socket, is_full}
use socket_dispatcher.SocketsList.Full.{IsBounded, put_socket-IsBounded, del_socket-IsBounded}
use socket_dispatcher.Poller.{max_sockets_to_poll, poll_sockets}

-- A list within its bound, and the bound within that of the poller.
abbrev pub IsPollable : SocketsList → Type 0
IsPollable l = IsBounded l × (l.max_size ≤ max_sockets_to_poll)

pub put_socket-IsPollable :
    (r : Ref) (l : SocketsList) → IsPollable l → IsPollable (put_socket r l).1
unfolding put_socket
put_socket-IsPollable r l h = (
  put_socket-IsBounded r l h.0,
  if-both (λ (x : Bool × SocketsList). x.1.max_size ≤ max_sockets_to_poll) (is_full l) h.1 h.1,
)

pub del_socket-IsPollable :
    (descriptor : Ref → ℤ) (r : Ref) (l : SocketsList)
    → IsPollable l
    → IsPollable (del_socket descriptor r l).1
unfolding del_socket
del_socket-IsPollable descriptor r l h = (
  del_socket-IsBounded descriptor r l h.0,
  if-both (λ (x : Bool × SocketsList). x.1.max_size ≤ max_sockets_to_poll) (is_full l) h.1 h.1,
)

pub poll_sockets-safe :
    (os : Os) (input out : SocketsList) (w : World)
    → IsPollable input
    → Outcome NoAssertion (λ _. Unit) (poll_sockets os input out w)
unfolding poll_sockets
poll_sockets-safe os input out w h =
    let fits : leb (length input.sockets) max_sockets_to_poll ≡ true = ground arith in
    rw (poll_sockets, fits) (Outcome-return NoAssertion (λ _. Unit) tt)
