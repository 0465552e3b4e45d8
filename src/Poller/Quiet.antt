-- ===== src/Poller/Quiet.antt =====
-- `pollSockets` changes nothing of a socket but its two masks.
use socket_dispatcher.Prelude.{
  ℕ, suc, ◌≡◌, refl, true, List, [], ◌∷◌, arith, leb, if-both, length, pos, ◌==ℤ◌, minus_one,
}
use socket_dispatcher.Socket.{set_events, set_revents, no_events, PollMask, is_empty}
use socket_dispatcher.World.{Ref, PollFd, PollResult, Os, World, Halt, poll, call}
use socket_dispatcher.World.Outcomes.{Outcome, Outcome-return}
use socket_dispatcher.World.Quiet.{Quiet}
use socket_dispatcher.SocketsList.{SocketsList, ErrorType}
use socket_dispatcher.Poller.{
  fill_poll_info, collect, reset_masks, poll_outcome, poll_sockets, max_sockets_to_poll,
}
use socket_dispatcher.Poller.Bounds.{IsPollable}

module _ (Q : World → Type 0) (q : Quiet Q) where
  collect-keeps :
      (bits : ℕ → PollMask) (i : ℕ) (rs : List Ref) (w : World) (out : SocketsList)
      → Q w
      → Q (collect bits i rs w out).0
  unfolding collect
  collect-keeps bits i [] w out h = h
  collect-keeps bits i (r ∷ rs) w out h = collect-keeps bits (suc i) rs _ _ (
      if-both Q (is_empty (bits i)) h
        (q.changes (set_revents (bits i)) r w (λ s. (refl, refl, refl, refl, refl)) h))

  poll_outcome-keeps :
      (p : PollResult) (input : List Ref) (w : World) (out : SocketsList)
      → Q w
      → Q (poll_outcome p input w out).1
  unfolding poll_outcome
  poll_outcome-keeps p input w out h =
      let P = λ (v : ErrorType × World × SocketsList). Q v.1 in
      if-both P (p.ret ==ℤ minus_one) (if-both P p.errno_is_eintr h h)
        (if-both P (p.ret ==ℤ pos 0) h (collect-keeps p.revents 0 input w out h))

module _ (Q : World → Type 0) (q : Quiet Q) where
  fill_poll_info-keeps : (rs : List Ref) (w : World) → Q w → Q (fill_poll_info rs w).1
  unfolding fill_poll_info
  fill_poll_info-keeps [] w h = h
  fill_poll_info-keeps (r ∷ rs) w h = fill_poll_info-keeps rs (reset_masks r w) (
      q.changes (set_revents no_events) r _ (λ s. (refl, refl, refl, refl, refl))
        (q.changes (set_events no_events) r w (λ s. (refl, refl, refl, refl, refl)) h))

  module _ (R : World → Type 0) (r : Quiet R)
      (tick : (entries : List PollFd) (w : World) → Q w → R (call (poll entries) w)) where
    -- `Q` before the call, `R` after it.
    pub poll_sockets-keeps :
        (H : Halt → Type 0) (os : Os) (input out : SocketsList) (w : World)
        → IsPollable input
        → Q w
        → Outcome H (λ (v : ErrorType × World × SocketsList). R v.1) (poll_sockets os input out w)
    unfolding poll_sockets
    poll_sockets-keeps H os input out w p h =
        let fits : leb (length input.sockets) max_sockets_to_poll ≡ true = ground arith in
        let filled = fill_poll_info input.sockets w in
        rw (poll_sockets, fits)
          (Outcome-return H (λ (v : ErrorType × World × SocketsList). R v.1)
            (poll_outcome-keeps R r (os.polled filled.1.trace filled.0) input.sockets
              (call (poll filled.0) filled.1) out
              (tick filled.0 filled.1 (fill_poll_info-keeps input.sockets w h))))
