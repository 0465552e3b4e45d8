-- ===== src/Dispatcher/Kind.antt =====
-- The dispatcher's socket to the listener stays of type UNIX.
use socket_dispatcher.Prelude.{
  ℕ, zero, suc, ◌<◌, ◌≡◌, refl, ◌∙◌, Bool, false, Option, none, some, List, [], ◌∷◌, arith, ◌==◌,
  if-both, ℤ, pos, ◌==ℤ◌, is_negative, is_positive, magnitude,
}
use socket_dispatcher.Socket.{Socket, unix, ssl, ssl_socket, new_socket, protect}
use socket_dispatcher.World.{
  Ref, MessageResult, Os, World, alloc, modify, call, recvmsg, descriptor_of,
}
use socket_dispatcher.World.Outcomes.{
  Outcome, Outcome-return, Outcome-halt, Outcome-bind, Outcome-option, Outcome-any, AnyHalt,
}
use socket_dispatcher.World.Quiet.{Quiet}
use socket_dispatcher.World.Ownership.{modify-field}
use socket_dispatcher.SocketsList.Delete.{contains}
use socket_dispatcher.SocketUtils.{destroy, release, make_ssl_socket, wrap_ssl}
use socket_dispatcher.SocketUtils.Ownership.{class_destructor-keeps}
use socket_dispatcher.Passing.{decide, receive_socket, ensure_control, scan}
use socket_dispatcher.Passing.Quiet.{ensure_control-keeps}
use socket_dispatcher.Passing.Transfer.{adopt-adopted, tcp_socket}

module _ (u : Ref) where
  abbrev pub IsUnix : World → Type 0
  IsUnix w = (u < w.next) × ((w.cell u).socket_type ≡ unix)

  -- No call matters to it, and no change that leaves the types alone.
  modify-IsUnix :
      (f : Socket → Socket) (r : Ref) (w : World)
      → ((s : Socket) → (f s).socket_type ≡ s.socket_type)
      → IsUnix w
      → IsUnix (modify r f w)
  modify-IsUnix f r w m h = (h.0, modify-field (λ (s : Socket). s.socket_type) f r u w m ∙ h.1)

  pub IsUnix-Quiet : Quiet IsUnix
  IsUnix-Quiet = record {
    calls = λ c w e h. h;
    changes = λ f r w m h. modify-IsUnix f r w (λ s. (m s).4) h;
    buffers = λ b w h. h;
  }

  alloc-IsUnix : (s : Socket) (w : World) → IsUnix w → IsUnix (alloc s w).1
  alloc-IsUnix s w h =
      let k = h.0 in let other : (w.next == u) ≡ false = ground arith in (omega arith, rw other h.1)

  pub destroy-IsUnix : (r : Ref) (w : World) → IsUnix w → IsUnix (destroy r w)
  unfolding destroy
  destroy-IsUnix r w h =
      let s = w.cell r in
      let k = class_destructor-keeps IsUnix IsUnix-Quiet s.class s.descriptor w h in
      if-both IsUnix s.protect_descriptor k k

  pub release-IsUnix : (kept rs : List Ref) (w : World) → IsUnix w → IsUnix (release kept rs w)
  unfolding release
  release-IsUnix kept [] w h = h
  release-IsUnix kept (r ∷ rs) w h =
      release-IsUnix kept rs _ (if-both IsUnix (contains r kept) h (destroy-IsUnix r w h))

  abbrev pub Came : Option Ref × World → Type 0
  Came x = IsUnix x.1

  -- The next round of the loop starts from the world after the call.
  abbrev CameOr : World → Option (Option Ref × World) → Type 0
  CameOr w none = IsUnix w
  CameOr w (some x) = Came x

  decide-CameOr :
      (m : MessageResult) (w : World) → IsUnix w → Outcome AnyHalt (CameOr w) (decide m w)
  unfolding decide
  decide-CameOr m w h =
      if-both (Outcome AnyHalt (CameOr w)) (is_negative m.ret) (Outcome-return AnyHalt (CameOr w) h)
        (if-both (Outcome AnyHalt (CameOr w)) (m.ret ==ℤ pos 0)
          (Outcome-return AnyHalt (CameOr w) h)
          (Outcome-bind AnyHalt (λ (o : Option ℤ). Unit) (CameOr w)
            (scan m.control 0 (magnitude m.ret) m.buffer none) _ (Outcome-any _)
            λ found _.
              Outcome-option AnyHalt (λ (o : Option ℤ). Unit) (CameOr w) found _ _ tt
                (λ _. Outcome-return AnyHalt (CameOr w) h)
                λ fd _. rw (adopt-adopted fd w) (
                  Outcome-return AnyHalt (CameOr w)
                    (if-both Came (is_positive fd) (alloc-IsUnix (tcp_socket fd) w h) h))))

  pub receive_socket-Came :
      (os : Os) (fuel : ℕ) (r : Ref) (w : World)
      → IsUnix w
      → Outcome AnyHalt Came (receive_socket os fuel r w)
  unfolding receive_socket
  receive_socket-Came os zero r w h = Outcome-halt AnyHalt Came tt
  receive_socket-Came os (suc fuel) r w h =
      let w' = (ensure_control os w).1 in
      let w₁ = call (recvmsg (descriptor_of w' r)) w' in
      let k = ensure_control-keeps IsUnix IsUnix-Quiet os w h in
      if-both (Outcome AnyHalt Came) (ensure_control os w).0
        (Outcome-bind AnyHalt (CameOr w₁) Came _ _
          (decide-CameOr (os.message_received w'.trace (descriptor_of w' r)) w₁ k)
          λ outcome d.
            Outcome-option AnyHalt (CameOr w₁) Came outcome _ _ d
              (λ d'. receive_socket-Came os fuel r w₁ d')
              λ result d'. Outcome-return AnyHalt Came d')
        (Outcome-return AnyHalt Came k)

  pub wrap_ssl-IsUnix :
      (context : Bool) (r : Ref) (w : World)
      → IsUnix w
      → Outcome AnyHalt (λ (x : Ref × World). IsUnix x.1) (wrap_ssl context r w)
  unfolding wrap_ssl make_ssl_socket
  wrap_ssl-IsUnix context r w h =
      let Done = λ (x : Ref × World). IsUnix x.1 in
      Outcome-bind AnyHalt Done Done (make_ssl_socket context (descriptor_of w r) w) _
        (Outcome-option AnyHalt (λ (o : Option Socket). Unit) Done
          (new_socket ssl_socket (descriptor_of w r) ssl false) _ _ tt
          (λ _. Outcome-halt AnyHalt Done tt)
          λ s _.
            if-both (Outcome AnyHalt Done) context
              (Outcome-return AnyHalt Done (alloc-IsUnix s w h)) (Outcome-halt AnyHalt Done tt))
        λ made k. Outcome-return AnyHalt Done (modify-IsUnix protect r made.1 (λ s. refl) k)
