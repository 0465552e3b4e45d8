-- ===== src/SocketUtils/Quiet.antt =====
-- Reading and writing open and close nothing.
use socket_dispatcher.Prelude.{ℕ, refl, if-both, ℤ, Bytes}
use socket_dispatcher.World.{Ref, ReadResult, Os, World}
use socket_dispatcher.World.Quiet.{Quiet}
use socket_dispatcher.SocketUtils.{read, write_message, is_ssl_socket}

module _ (Q : World → Type 0) (q : Quiet Q) (os : Os) (r : Ref) where
  pub read-keeps : (size : ℕ) (w : World) → Q w → Q (read os r size w).1
  unfolding read
  read-keeps size w h =
      if-both (λ (x : ReadResult × World). Q x.1) (is_ssl_socket (w.cell r).class)
        (q.calls _ w refl h) (q.calls _ w refl h)

  pub write_message-keeps : (m : Bytes) (w : World) → Q w → Q (write_message os r m w).1
  unfolding write_message
  write_message-keeps m w h =
      if-both (λ (x : ℤ × World). Q x.1) (is_ssl_socket (w.cell r).class) (q.calls _ w refl h)
        (q.calls _ w refl h)
