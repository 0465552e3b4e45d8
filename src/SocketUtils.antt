-- ===== src/SocketUtils.antt =====
-- SocketUtils.h, SocketUtils.cpp, and the life of an object in Socket.cpp and SslSocket.cpp: reading
-- and writing through a socket, wrapping a socket for TLS, and destruction.
pub mod Tls
pub mod Ownership
pub mod Holding
pub mod Quiet
use socket_dispatcher.Prelude.{
  ℕ, Bool, true, false, none, some, List, [], ◌∷◌, if◌then◌else◌, ℤ, Bytes, c_string,
}
use socket_dispatcher.SocketsList.Delete.{contains}
use socket_dispatcher.Socket.{
  SocketClass, ssl_socket, unix_listener_socket, new_socket, ssl, protect,
}
use socket_dispatcher.World.{
  Ref, ReadResult, Os, World, recv, write, bio_read, bio_write, bio_new_socket, ssl_free, unlink,
  close, call, modify, alloc, Result, ok, assertion_failed, null_dereference, halt, ◌>>=◌,
}

-- `dynamic_cast<SslSocket*>` succeeds.
abbrev pub is_ssl_socket : SocketClass → Bool
is_ssl_socket ssl_socket = true
is_ssl_socket _ = false

-- `utils::read`: a TLS socket is read through its BIO.
unfoldable pub read : Os → Ref → ℕ → World → ReadResult × World
read os r size w =
    let fd = (w.cell r).descriptor in
    if is_ssl_socket (w.cell r).class
    then (os.bio_was_read w.trace fd size, call (bio_read fd size) w)
    else (os.received w.trace fd size false, call (recv fd size false) w)

-- `utils::write`
unfoldable pub write_message : Os → Ref → Bytes → World → ℤ × World
write_message os r message w =
    let fd = (w.cell r).descriptor in
    if is_ssl_socket (w.cell r).class
    then (os.bio_written w.trace fd message, call (bio_write fd message) w)
    else (os.written w.trace fd message, call (write fd message) w)

-- `SslSocket::SslSocket(int)`, which `SslSocket::SslSocket(Socket::Ptr)` repeats. The allocated object
-- is of class SslSocket. `context` tells whether `sslGlobalCtx` is set: without it `SSL_new` gives
-- a null pointer, which `SSL_set_bio` follows.
unfoldable pub make_ssl_socket : Bool → ℤ → World → Result (Ref × World)
unfolding new_socket
make_ssl_socket context fd w = elim (new_socket ssl_socket fd ssl false) [
  | none ↦ halt assertion_failed
  | some s ↦
      if context then ok (w.next, call (bio_new_socket fd) (alloc s w).1) else halt null_dereference
]

-- `SslSocket::SslSocket(Socket::Ptr)`: the new object takes the descriptor over, and the old one
-- will not close it.
unfoldable pub wrap_ssl : Bool → Ref → World → Result (Ref × World)
wrap_ssl context r w =
    make_ssl_socket context (w.cell r).descriptor w >>= λ made. ok (made.0, modify r protect made.1)

-- `UnixListenerSocket::~UnixListenerSocket`
abbrev unlink_path : Bytes → World → World
unlink_path path w = call (unlink (c_string path)) w

-- The calls of the destructors, in order: that of the class first, then `Socket::~Socket`.
unfoldable pub class_destructor : SocketClass → World → ℤ → World
class_destructor ssl_socket w fd = call (ssl_free fd) w
class_destructor (unix_listener_socket path) w fd = unlink_path path w
class_destructor _ w fd = w

-- The last `Socket::Ptr` to an object goes away.
unfoldable pub destroy : Ref → World → World
unfolding class_destructor
destroy r w =
    let s = w.cell r in
    let w' = class_destructor s.class w s.descriptor in
    if s.protect_descriptor then w' else call (close s.descriptor) w'

-- `clear()` on a list of pointers: the objects that no other pointer holds are destroyed. `kept` are
-- those that are held elsewhere.
unfoldable pub release : List Ref → List Ref → World → World
release kept [] w = w
release kept (r ∷ rs) w = release kept rs (if contains r kept then w else destroy r w)
