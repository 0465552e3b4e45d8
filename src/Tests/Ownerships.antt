-- ===== src/Tests/Ownerships.antt =====
-- A system that numbers its descriptors by the calls made so far, and the listener on it: a client
-- whose handshake fails, and dispatchers that connect, until SIGINT comes.
use socket_dispatcher.Prelude.{
  ℕ, ◌≤◌, ◌<◌, ◌≡◌, refl, inl, inr, true, false, List, [], ◌∷◌, arith, leb, if◌then◌else◌,
  Bool-cases, length, ℤ, pos, minus_one, Bytes, codes, c_string,
}
use socket_dispatcher.Listener.Main.{
  listener_main, complete, serve_caught, serve, assemble, create_dispatcher, wait_disp_child,
  request_all, react, prepare, round, run, finish,
}
use socket_dispatcher.Listener.{
  say_goodbye, process_sockets, process_listener, process_client_connection,
  process_dispatcher_connection, accept_connection, accept_by, accept_ssl, make_socket, send_config,
  pass_client,
}
use socket_dispatcher.Passing.{scan, next_descriptor}
use socket_dispatcher.Ssl.{initial_globals, create_context, load_key, load_locations, drop_context}
use socket_dispatcher.Config.{read_command_arguments, read_options, check_options}
use socket_dispatcher.SocketFactory.{
  require_context, create_tcp_ssl_listener, create_tcp, create_unix_listener, bind_and_listen,
  make_object,
}
use socket_dispatcher.Socket.{no_events, new_socket}
use socket_dispatcher.SocketUtils.{release, destroy, class_destructor}
use socket_dispatcher.SocketsList.{put_socket, clear, new_sockets_list}
use socket_dispatcher.Poller.{poll_sockets, poll_outcome, fill_poll_info, collect}
use socket_dispatcher.World.{Trace, Os, World, Result, ok}
use socket_dispatcher.World.Ledger.{
  Effect, opening, accepting, receiving, closing, quiet, effect_of, after_effect, open_descriptors,
  has, has_taken, take_out, IsTidy, IsFresh, BringsNew,
}
use socket_dispatcher.Listener.Ownership.{HandshakeFailed}
use socket_dispatcher.Listener.Main.Ownership.Whole.{listener_main-IsTidy}
use socket_dispatcher.Tests.{returned, returned_lem, readable, demo_os, demo_world}

abbrev pub counting_os : Os
counting_os = record demo_os {
  polled = λ t entries. record {
    ret = pos 1;
    errno_is_eintr = false;
    revents = λ i. if leb i 1 then readable else no_events;
  };
  opened = λ t d. pos (length t);
  accepted = λ t fd. pos (length t);
  ssl_accepted = λ t fd. minus_one;
  received = λ t fd size peek.
      if leb 24 (length t)
      then record { ret = pos 4; buffer = codes "EXIT" }
      else if leb (length t) 6
      then record { ret = pos 6; buffer = codes "CONFIG" }
      else record { ret = pos 2; buffer = 0 ∷ 0 ∷ [] };
  message_received = λ t fd. record { ret = pos 2; buffer = 0 ∷ 0 ∷ []; control = pos (length t) };
  exit_requested = λ t. leb 20 (length t);
}

after_effect-fresh :
    (e : Effect) (t : Trace) (n : ℕ)
    → length t < n
    → has (open_descriptors counting_os t) (pos n) ≡ false
    → has (after_effect counting_os e t (open_descriptors counting_os t)) (pos n) ≡ false
unfolding scan next_descriptor
after_effect-fresh (opening d) t n h f = ground arith
after_effect-fresh (accepting fd) t n h f = ground arith
after_effect-fresh (receiving fd) t n h f = ground arith
after_effect-fresh quiet t n h f = f
after_effect-fresh (closing fd) t n h f =
    elim (Bool-cases (has (take_out fd (open_descriptors counting_os t)) (pos n))) [
      | inl there ↦ let k = has_taken fd (pos n) (open_descriptors counting_os t) there in cc (k, f)
      | inr gone ↦ gone
    ]

open_descriptors-fresh :
    (t : Trace) (n : ℕ) → length t ≤ n → has (open_descriptors counting_os t) (pos n) ≡ false
open_descriptors-fresh [] n h = refl
open_descriptors-fresh (c ∷ t) n h =
    after_effect-fresh (effect_of c) t n (omega arith) (open_descriptors-fresh t n (omega arith))

pub counting_os-IsFresh : IsFresh counting_os
counting_os-IsFresh = record {
  opened = λ t d. open_descriptors-fresh t (length t) (omega arith);
  accepted = λ t fd. open_descriptors-fresh t (length t) (omega arith);
}

pub counting_os-BringsNew : BringsNew counting_os
unfolding scan next_descriptor
counting_os-BringsNew t fd = open_descriptors-fresh t (length t) (omega arith)

abbrev no_options : Bytes → List (ℕ × Bytes)
no_options options = []

abbrev whole_run : Result (ℕ × World)
whole_run = listener_main counting_os (codes "42") 5 no_options initial_globals demo_world

abbrev whole_end : ℕ × World
whole_end = returned (1, demo_world) whole_run

whole_run_returns : whole_run ≡ ok (whole_end.0, whole_end.1)
unfolding listener_main create_context load_key load_locations complete read_command_arguments
    read_options check_options serve_caught serve require_context create_tcp_ssl_listener create_tcp
    create_unix_listener bind_and_listen make_object new_socket assemble create_dispatcher
    wait_disp_child request_all react prepare round run finish say_goodbye release destroy
    class_destructor drop_context process_sockets process_listener process_client_connection
    process_dispatcher_connection accept_connection accept_by accept_ssl make_socket send_config
    pass_client put_socket clear new_sockets_list poll_sockets poll_outcome fill_poll_info collect
    c_string
whole_run_returns = returned_lem (1, demo_world) whole_run refl

listener_main-IsTidy_example :
    IsTidy counting_os whole_end.1.trace
    × ((fd : ℤ)
        → has (open_descriptors counting_os whole_end.1.trace) fd ≡ true
        → HandshakeFailed counting_os whole_end.1.trace fd)
listener_main-IsTidy_example =
    listener_main-IsTidy counting_os (codes "42") 5 no_options initial_globals demo_world
      counting_os-IsFresh refl whole_run_returns
