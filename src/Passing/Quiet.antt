-- ===== src/Passing/Quiet.antt =====
-- Sending a descriptor opens and closes nothing.
use socket_dispatcher.Prelude.{refl, Bool, if-both, is_negative}
use socket_dispatcher.World.{Ref, Os, World, malloc, call, descriptor_of}
use socket_dispatcher.World.Quiet.{Quiet}
use socket_dispatcher.Passing.{send_socket, ensure_control}

module _ (Q : World → Type 0) (q : Quiet Q) where
  pub ensure_control-keeps : (os : Os) (w : World) → Q w → Q (ensure_control os w).1
  unfolding ensure_control
  ensure_control-keeps os w h =
      if-both (λ (x : Bool × World). Q x.1) w.control_buffer h
        (q.buffers (os.memory_left w.trace) (call malloc w) (q.calls malloc w refl h))

  pub send_socket-keeps :
      (os : Os) (s client : Ref) (w : World) → Q w → Q (send_socket os s client w).1
  unfolding send_socket
  send_socket-keeps os s client w h =
      let k = ensure_control-keeps os w h in
      if-both (λ (x : Bool × World). Q x.1) (is_negative (descriptor_of w client))
        (q.calls _ w refl h)
        (if-both (λ (x : Bool × World). Q x.1) (ensure_control os w).0 (q.calls _ _ refl k) k)
