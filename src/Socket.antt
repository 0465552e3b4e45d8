-- ===== src/Socket.antt =====
-- Socket.h, Socket.cpp, SslSocket.h and SslSocket.cpp: the socket object, its poll bits, its class,
-- and what its construction and destruction do to the descriptor.
use socket_dispatcher.Prelude.{
  ℤ, ◌==ℤ◌, Bool, true, false, not, ◌||◌, Option, none, some, Bytes, minus_one, if◌then◌else◌,
}

pub data SocketType : Type 0 where
  tcp ssl unix unknown : SocketType

-- `NONE` is `silent`, since `none` is a constructor of `Option`.
pub data ClientStatus : Type 0 where
  hello bye echo silent : ClientStatus

-- A set of poll bits, the `short` of `struct pollfd`. The macros of <poll.h> are distinct bits:
-- `x |= POLLIN` sets a field, `x & POLLIN` reads it. `other` stands for all bits that the source
-- does not name.
pub record PollMask : Type 0 where
  pub pollin : Bool
  pub pollout : Bool
  pub pollerr : Bool
  pub pollhup : Bool
  pub pollnval : Bool
  pub pollrdhup : Bool
  pub other : Bool

-- `Socket::NO_EVENTS`
abbrev pub no_events : PollMask
no_events = record {
  pollin = false;
  pollout = false;
  pollerr = false;
  pollhup = false;
  pollnval = false;
  pollrdhup = false;
  other = false;
}

-- The mask `POLLOUT` alone.
abbrev pub pollout_only : PollMask
pollout_only = record no_events { pollout = true }

-- `m == 0`
abbrev pub is_empty : PollMask → Bool
is_empty m = not (
    m.pollin
    || (m.pollout || (m.pollerr || (m.pollhup || (m.pollnval || (m.pollrdhup || m.other))))))

-- The dynamic class of the object behind a `Socket::Ptr`: `dynamic_cast` and the overrides of
-- `acceptConnection` go by it. `plain` is Socket, TcpSocket and UnixSocket, which override nothing.
pub data SocketClass : Type 0 where
  plain ssl_socket tcp_listener_socket tcp_ssl_listener_socket : SocketClass
  unix_listener_socket : Bytes → SocketClass

pub record Socket : Type 0 where
  pub class : SocketClass
  pub protect_descriptor : Bool
  pub descriptor : ℤ
  pub events : PollMask
  pub revents : PollMask
  pub socket_type : SocketType
  pub listen_socket : Bool
  pub client_status : ClientStatus

-- The fields after construction.
abbrev pub fresh_socket : SocketClass → ℤ → SocketType → Bool → Socket
fresh_socket c fd t listening = record {
  class = c;
  protect_descriptor = false;
  descriptor = fd;
  events = no_events;
  revents = no_events;
  socket_type = t;
  listen_socket = listening;
  client_status = silent;
}

-- The constructor of `Socket`, for an object of class `c`; `none` is the failed assertion on
-- `FREE_SOCKET`.
unfoldable pub new_socket : SocketClass → ℤ → SocketType → Bool → Option Socket
new_socket c fd t listening =
    if fd ==ℤ minus_one then none else some (fresh_socket c fd t listening)

abbrev pub set_events : PollMask → Socket → Socket
set_events m s = record s { events = m }

abbrev pub poll_for_read : Socket → Socket
poll_for_read s = record s { events = record (s.events) { pollin = true } }

abbrev pub poll_for_write : Socket → Socket
poll_for_write s = record s { events = record (s.events) { pollout = true } }

abbrev pub set_revents : PollMask → Socket → Socket
set_revents m s = record s { revents = m }

abbrev pub is_read_available : Socket → Bool
is_read_available s = s.revents.pollin

abbrev pub is_write_available : Socket → Bool
is_write_available s = s.revents.pollout

abbrev pub is_dropped : Socket → Bool
is_dropped s =
    if s.revents.pollerr || (s.revents.pollhup || (s.revents.pollnval || s.revents.pollrdhup))
    then true
    else false

abbrev pub set_client_status : ClientStatus → Socket → Socket
set_client_status c s = record s { client_status = c }

abbrev pub protect : Socket → Socket
protect s = record s { protect_descriptor = true }
