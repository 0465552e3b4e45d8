-- ===== src/Listener/Stable.antt =====
-- Rules for what the listener does to its world: a property of worlds that every call, every new
-- connection and every change of poll bits keeps, each of its steps keeps.
use socket_dispatcher.Prelude.{Bool, List, [], ◌∷◌, if-both, ℤ}
use socket_dispatcher.Socket.{Socket, SocketType}
use socket_dispatcher.World.{Ref, Call, World, close, call, alloc, modify}
use socket_dispatcher.SocketsList.Delete.{contains}
use socket_dispatcher.World.Quiet.{IsMinor, Quiet}
use socket_dispatcher.SocketUtils.{destroy, release}
use socket_dispatcher.SocketUtils.Ownership.{class_destructor-keeps}
use socket_dispatcher.Listener.Configuration.{connection}

-- The property `Q` is kept by all that changes a world.
pub record Stable (Q : World → Type 0) : Type 0 where
  pub calls : (c : Call) (w : World) → Q w → Q (call c w)
  pub changes : (f : Socket → Socket) (r : Ref) (w : World) → IsMinor f → Q w → Q (modify r f w)
  pub connections : (fd : ℤ) (t : SocketType) (w : World) → Q w → Q (alloc (connection fd t) w).1
  pub buffers : (b : Bool) (w : World) → Q w → Q (record w { control_buffer = b })

module _ (Q : World → Type 0) (q : Stable Q) where
  pub Stable-Quiet : Quiet Q
  Stable-Quiet = record {
    calls = λ c w e h. q.calls c w h;
    changes = q.changes;
    buffers = q.buffers;
  }

  pub destroy-keeps : (r : Ref) (w : World) → Q w → Q (destroy r w)
  unfolding destroy
  destroy-keeps r w h =
      let k = class_destructor-keeps Q Stable-Quiet (w.cell r).class (w.cell r).descriptor w h in
      if-both Q (w.cell r).protect_descriptor k (q.calls (close (w.cell r).descriptor) _ k)

  pub release-keeps : (kept rs : List Ref) (w : World) → Q w → Q (release kept rs w)
  unfolding release
  release-keeps kept [] w h = h
  release-keeps kept (r ∷ rs) w h =
      release-keeps kept rs _ (if-both Q (contains r kept) h (destroy-keeps r w h))
