-- ===== src/SocketUtils/Tls.antt =====
-- A TLS socket: its reads, its writes and its end.
use socket_dispatcher.Prelude.{ℕ, ◌≡◌, ap, false, ℤ, Bytes}
use socket_dispatcher.Socket.{Socket, ssl_socket, ssl, fresh_socket}
use socket_dispatcher.World.{Ref, Os, World, bio_read, bio_write, close, ssl_free, call}
use socket_dispatcher.SocketUtils.{read, write_message, destroy, class_destructor}

-- A TLS socket of the descriptor `fd`, which closes it when it goes away.
abbrev pub IsTls : ℤ → Socket → Type 0
IsTls fd s = (s.class ≡ ssl_socket) × (s.descriptor ≡ fd) × (s.protect_descriptor ≡ false)

pub fresh_socket-IsTls :
    (fd : ℤ) (s : Socket) → s ≡ fresh_socket ssl_socket fd ssl false → IsTls fd s
fresh_socket-IsTls fd s h = (
  ap (λ (x : Socket). x.class) h,
  ap (λ (x : Socket). x.descriptor) h,
  ap (λ (x : Socket). x.protect_descriptor) h,
)

module _ (r : Ref) (fd : ℤ) (w : World) (h : IsTls fd (w.cell r)) where
  pub read-IsTls : (os : Os) (n : ℕ) → (read os r n w).1 ≡ call (bio_read fd n) w
  unfolding read
  read-IsTls os n = rw (h.0, read) (rw h.1)

  pub write_message-IsTls :
      (os : Os) (m : Bytes) → (write_message os r m w).1 ≡ call (bio_write fd m) w
  unfolding write_message
  write_message-IsTls os m = rw (h.0, write_message) (rw h.1)

  pub destroy-IsTls : destroy r w ≡ call (close fd) (call (ssl_free fd) w)
  unfolding destroy class_destructor
  destroy-IsTls = rw (h.0, h.2) (rw h.1)
