-- ===== src/World/Quiet.antt =====
-- Properties of a world that nothing changes but the life of its sockets.
use socket_dispatcher.Prelude.{◌≡◌, Bool}
use socket_dispatcher.Socket.{Socket}
use socket_dispatcher.World.{Ref, Call, World, call, modify}
use socket_dispatcher.World.Ledger.{effect_of, quiet}

-- A change of an object that leaves its class, its type, its descriptor, whether it listens and
-- whether it closes alone.
abbrev pub IsMinor : (Socket → Socket) → Type 0
IsMinor f =
    (s : Socket)
    → ((f s).class ≡ s.class)
      × ((f s).listen_socket ≡ s.listen_socket)
      × ((f s).descriptor ≡ s.descriptor)
      × ((f s).protect_descriptor ≡ s.protect_descriptor)
      × ((f s).socket_type ≡ s.socket_type)

-- `Q` is kept by every call that neither opens nor closes a descriptor, by every minor change of an
-- object, and by the buffer for control data.
pub record Quiet (Q : World → Type 0) : Type 0 where
  pub calls : (c : Call) (w : World) → effect_of c ≡ quiet → Q w → Q (call c w)
  pub changes : (f : Socket → Socket) (r : Ref) (w : World) → IsMinor f → Q w → Q (modify r f w)
  pub buffers : (b : Bool) (w : World) → Q w → Q (record w { control_buffer = b })

-- Two such properties at once.
pub both-Quiet : {P Q : World → Type 0} → Quiet P → Quiet Q → Quiet (λ w. P w × Q w)
both-Quiet p q = record {
  calls = λ c w e h. (p.calls c w e h.0, q.calls c w e h.1);
  changes = λ f r w m h. (p.changes f r w m h.0, q.changes f r w m h.1);
  buffers = λ b w h. (p.buffers b w h.0, q.buffers b w h.1);
}
