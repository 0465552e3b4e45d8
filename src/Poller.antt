-- ===== src/Poller.antt =====
-- SocketsPoller.h and SocketsPoller.cpp: `pollSockets` asks the system which sockets are active,
-- stores the answer in the sockets, and collects the active ones.
pub mod Masks
pub mod Fill
pub mod Collect
pub mod Answer
pub mod First
pub mod Bounds
pub mod Quiet
pub mod Ready
use socket_dispatcher.Prelude.{
  ℕ, suc, List, [], ◌∷◌, leb, if◌then◌else◌, length, pos, ◌==ℤ◌, minus_one,
}
use socket_dispatcher.Socket.{PollMask, no_events, is_empty, set_events, set_revents}
use socket_dispatcher.World.{
  ◌>>◌, Ref, PollFd, PollResult, Os, World, Result, ok, call, modify, poll, assert,
}
use socket_dispatcher.SocketsList.{
  SocketsList, ErrorType, error, interrupted, timeout, success, put_socket,
}

abbrev pub max_sockets_to_poll : ℕ
max_sockets_to_poll = 1024

-- The body of the first loop on one socket: both masks are reset.
abbrev pub reset_masks : Ref → World → World
reset_masks r w = modify r (set_revents no_events) (modify r (set_events no_events) w)

-- The first loop: the entry of each socket, in order, read before the masks are reset.
unfoldable pub fill_poll_info : List Ref → World → List PollFd × World
fill_poll_info [] w = ([], w)
fill_poll_info (r ∷ rs) w =
    let entry : PollFd = record { fd = (w.cell r).descriptor; events = (w.cell r).events } in
    let (entries, w') = fill_poll_info rs (reset_masks r w) in (entry ∷ entries, w')

-- The second loop, from index `i`: an active socket gets its bits and is put on the output list.
unfoldable pub collect : (ℕ → PollMask) → ℕ → List Ref → World → SocketsList → World × SocketsList
collect revents i [] w out = (w, out)
collect revents i (r ∷ rs) w out =
    let idle = is_empty (revents i) in
    collect revents (suc i) rs (if idle then w else modify r (set_revents (revents i)) w)
      (if idle then out else (put_socket r out).1)

-- What follows the call of `poll`.
unfoldable pub poll_outcome :
    PollResult → List Ref → World → SocketsList → ErrorType × World × SocketsList
unfolding collect
poll_outcome p input w out =
    if p.ret ==ℤ minus_one
    then (if p.errno_is_eintr then (interrupted, w, out) else (error, w, out))
    else if p.ret ==ℤ pos 0
    then (timeout, w, out)
    else let (w', out') = collect p.revents 0 input w out in (success, w', out')

unfoldable pub poll_sockets :
    Os → SocketsList → SocketsList → World → Result (ErrorType × World × SocketsList)
unfolding fill_poll_info poll_outcome
poll_sockets os input out w = do
  assert (leb (length input.sockets) max_sockets_to_poll)
  let entries = (fill_poll_info input.sockets w).0
  let w' = (fill_poll_info input.sockets w).1
  ok (poll_outcome (os.polled w'.trace entries) input.sockets (call (poll entries) w') out)
