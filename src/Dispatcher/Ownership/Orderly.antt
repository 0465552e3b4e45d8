-- ===== src/Dispatcher/Ownership/Orderly.antt =====
-- The dispatcher's list between two rounds of its main loop.
use socket_dispatcher.Prelude.{ℕ, ◌≤◌, ◌≡◌, true, some, List, [], arith, length, Bytes}
use socket_dispatcher.World.{Ref, Os, World, ok, descriptor_of}
use socket_dispatcher.World.Ledger.{IsFresh, BringsNew}
use socket_dispatcher.World.Outcomes.{AnyHalt, Outcome-ok}
use socket_dispatcher.World.Ownership.{is_open}
use socket_dispatcher.SocketsList.Delete.{contains, Distinct, Apart}
use socket_dispatcher.SocketsList.Distinct.{StartsWith, Distinct-Apart}
use socket_dispatcher.Ssl.{SslGlobals}
use socket_dispatcher.SocketFactory.{create_unix_socket}
use socket_dispatcher.Dispatcher.{Dispatcher, run}
use socket_dispatcher.Dispatcher.Main.{initial}
use socket_dispatcher.Dispatcher.Ownership.{Owned}
use socket_dispatcher.Dispatcher.Ownership.Whole.{
  WellMade, OwnedSome, create_unix_socket-WellMade, initial-Owned, run-OwnedSome,
}

-- What holds of the list between two rounds: it starts with the socket to the listener, has at most
-- its bound of members, none of them twice, and these have different descriptors, all of them open.
abbrev pub IsOrderly : Os → Dispatcher → Type 0
IsOrderly os d =
    StartsWith d.unix_socket d.sockets.sockets
    × (length d.sockets.sockets ≤ d.sockets.max_size)
    × Distinct d.sockets.sockets
    × Apart (descriptor_of d.world) d.sockets.sockets
    × ((q : Ref)
        → contains q d.sockets.sockets ≡ true
        → is_open os d.world (descriptor_of d.world q) ≡ true)

Owned-IsOrderly :
    (os : Os) (stack : Bytes) (fuel : ℕ) (ready : List Ref) (d : Dispatcher)
    → Owned os stack fuel ready d
    → IsOrderly os d
Owned-IsOrderly os stack fuel ready d h =
    let owns = h.answers.0 in
    (
      h.first,
      h.small.0,
      h.once,
      Distinct-Apart (descriptor_of d.world) d.sockets.sockets
          (λ r q a b e. owns.apart r q (ground arith) (ground arith) e) h.once,
      λ q m. owns.opened q (ground arith),
    )

-- From the start of the dispatcher's process, once its socket to the listener is made, whatever the
-- listener, the clients and the system do: after any number of rounds of its main loop that return,
-- the list of sockets starts with that socket, stays within its bound, and has no object twice, and its
-- members have different descriptors, all of them open. The process starts with no call made, and
-- neither the system nor a message hands out a descriptor that is open.
pub run-IsOrderly :
    (os : Os) (stack : Bytes) (fuel n : ℕ) (path : Bytes) (g : SslGlobals) (w : World)
    → IsFresh os
    → BringsNew os
    → w.trace ≡ []
    → {r : Ref} {w₁ : World} {d : Dispatcher} → create_unix_socket os path w ≡ ok (some r, w₁)
    → run os stack fuel n (initial os stack fuel g r w₁) ≡ ok d
    → IsOrderly os d
run-IsOrderly os stack fuel n path g w fresh brings e {r} {w₁} {d} made returns =
    let well =
      Outcome-ok AnyHalt (WellMade os stack fuel brings fresh) (create_unix_socket os path w)
        (create_unix_socket-WellMade os stack fuel brings fresh path w e) made in
    let start = initial os stack fuel g r w₁ in
    let k =
      Outcome-ok AnyHalt (OwnedSome os stack fuel brings fresh) (run os stack fuel n start)
        (run-OwnedSome os stack fuel brings fresh n start
          (initial-Owned os stack fuel g r w₁ well.0 well.1))
        returns in
    Owned-IsOrderly os stack fuel k.0 d k.1
