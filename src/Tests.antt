-- ===== src/Tests.antt =====
-- A small system and small worlds, in which the child modules run the modelled code and apply the
-- theorems at inputs that meet their hypotheses.
pub mod Lists
pub mod Clients
pub mod Configs
pub mod Passings
pub mod Dispatchers
pub mod Listeners
pub mod Factories
pub mod Programs
pub mod Ownerships
pub mod Endings
use socket_dispatcher.Prelude.{
  ◌+◌, ◌≡◌, refl, Bool, true, false, some, [], ◌∷◌, leb, ◌==◌, if◌then◌else◌, length, ℤ, pos,
  minus_one, codes,
}
use socket_dispatcher.Socket.{
  PollMask, Socket, SocketType, SocketClass, ClientStatus, plain, ssl_socket,
  tcp_ssl_listener_socket, unix_listener_socket, tcp, ssl, unix, hello, silent, no_events,
}
use socket_dispatcher.World.{Os, World, Result, ok, halt}
use socket_dispatcher.SocketsList.{SocketsList}
use socket_dispatcher.Client.Session.{opened}
use socket_dispatcher.Config.{ApplicationConfig, listener, dispatcher, create}
use socket_dispatcher.Config.Arguments.{accepted}

-- What a run returns, or `a` where it does not.
abbrev pub returned {ℓ} : {A : Type ℓ} → A → Result A → A
returned a (ok x) = x
returned a (halt h) = a

abbrev pub has_returned {ℓ} : {A : Type ℓ} → Result A → Bool
has_returned (ok x) = true
has_returned (halt h) = false

pub returned_lem {ℓ} :
    {A : Type ℓ} (a : A) (m : Result A) → has_returned m ≡ true → m ≡ ok (returned a m)
returned_lem a (ok x) e = refl
returned_lem a (halt h) e = cc

abbrev pub readable : PollMask
readable = record no_events { pollin = true }

-- Every poll finds the second entry readable, every read finds "EXIT", every write succeeds, and
-- `recvmsg` fails.
abbrev pub demo_os : Os
demo_os = record {
  polled = λ t entries. record {
    ret = pos 1;
    errno_is_eintr = false;
    revents = λ i. if i == 1 then readable else no_events;
  };
  received = λ t fd size peek. record { ret = pos 4; buffer = codes "EXIT" };
  written = λ t fd bytes. pos (length bytes);
  bio_was_read = λ t fd size. record { ret = pos 4; buffer = codes "EXIT" };
  bio_written = λ t fd bytes. pos (length bytes);
  message_received = λ t fd. record { ret = minus_one; buffer = []; control = pos 0 };
  message_sent = λ t fd bytes control. pos 2;
  accepted = λ t fd. pos 9;
  ssl_accepted = λ t fd. pos 1;
  memory_left = λ t. true;
  context_created = λ t. true;
  certificate_used = λ t file. pos 1;
  private_key_used = λ t file password. pos 1;
  locations_loaded = λ t file. pos 1;
  error_code = λ t. 0;
  opened = λ t d. pos 5;
  bound = λ t fd a. pos 0;
  listened = λ t fd n. pos 0;
  connected = λ t fd a. pos 0;
  host_resolved = λ t name. some (127 ∷ 0 ∷ 0 ∷ 1 ∷ []);
  flags_read = λ t fd. some (record { nonblock = false; others = 2 });
  flags_set = λ t fd flags. pos 0;
  ssl_connected = λ t fd. pos 1;
  forked = λ t. pos 77;
  executed = λ t. true;
  child_waited = λ t. pos 0;
  exit_requested = λ t. leb 3 (length t);
}

abbrev pub demo_socket : SocketClass → ℤ → SocketType → ClientStatus → Socket
demo_socket c fd t status = record {
  class = c;
  protect_descriptor = false;
  descriptor = fd;
  events = no_events;
  revents = readable;
  socket_type = t;
  listen_socket = false;
  client_status = status;
}

-- Object 1 is the socket to the listener, and every other object a client of descriptor `6 + n`.
abbrev pub demo_world : World
demo_world = record {
  next = 5;
  cell = λ r.
      if r == 1
      then demo_socket plain (pos 3) unix silent
      else demo_socket ssl_socket (pos (6 + r)) ssl hello;
  trace = [];
  control_buffer = true;
}

abbrev pub demo_list : SocketsList
demo_list = record { sockets = 1 ∷ 2 ∷ 3 ∷ []; max_size = 10 }

abbrev pub empty_list : SocketsList
empty_list = record { sockets = []; max_size = 10 }

abbrev pub full_list : SocketsList
full_list = record { sockets = 1 ∷ 2 ∷ []; max_size = 2 }

abbrev pub demo_config : ApplicationConfig
demo_config = create dispatcher

abbrev pub listener_config : ApplicationConfig
listener_config = record (create listener) {
  ca_file = codes "ca.pem";
  cert_file = codes "cert.pem";
  key_file = codes "key.pem";
}

-- Objects 1 and 2 listen for clients and for dispatchers, 3 and 4 are connections to dispatchers.
abbrev pub listener_world : World
listener_world = record demo_world {
  cell = λ r.
      if r == 1
      then record (demo_socket tcp_ssl_listener_socket (pos 3) tcp silent) { listen_socket = true }
      else if r == 2
      then record (demo_socket (unix_listener_socket (codes "dispatch.sock")) (pos 4) unix silent) {
        listen_socket = true;
      }
      else demo_socket plain (pos (4 + r)) unix silent;
}

abbrev pub listener_list : SocketsList
listener_list = record { sockets = 1 ∷ 2 ∷ 3 ∷ 4 ∷ []; max_size = 100 }
