-- ===== src/Tests/Listeners.antt =====
-- A client and a dispatcher that connect to the listener.
use socket_dispatcher.Prelude.{
  ◌≡◌, refl, Bool, true, false, some, [], ◌∷◌, arith, ◌==◌, if◌then◌else◌, if-both, pos, minus_one,
  codes, c_string,
}
use socket_dispatcher.Socket.{new_socket}
use socket_dispatcher.World.{
  Os, ssl_accept, bio_new_socket, World, Trace, write, accept, close, Result, ok, halt,
}
use socket_dispatcher.SocketsList.{SocketsList, put_socket}
use socket_dispatcher.SocketUtils.{destroy, class_destructor}
use socket_dispatcher.Passing.{send_socket, message_for, ensure_control}
use socket_dispatcher.Listener.{
  say_goodbye, accepts, config_label, config_message, process_dispatcher_connection,
  process_client_connection, process_sockets, process_listener, accept_connection, accept_by,
  accept_ssl, make_socket, pass_client, send_config,
}
use socket_dispatcher.Listener.Farewell.{say_goodbye-dispatchers}
use socket_dispatcher.Listener.Configuration.{process_dispatcher_connection-trace}
use socket_dispatcher.Listener.Clients.{passed, process_client_connection-passed}
use socket_dispatcher.Socket.{Socket, no_events}
use socket_dispatcher.SocketsList.{clear, new_sockets_list}
use socket_dispatcher.SocketUtils.{release}
use socket_dispatcher.Poller.{poll_sockets, poll_outcome, fill_poll_info, collect}
use socket_dispatcher.Ssl.{initial_globals}
use socket_dispatcher.World.Ledger.{open_descriptors}
use socket_dispatcher.Listener.Descriptors.{process_client_connection-Leaves}
use socket_dispatcher.Listener.Main.{Listener, run, round, prepare, react, request_all}
use socket_dispatcher.Poller.Masks.{entries_of}
use socket_dispatcher.World.{poll}
use socket_dispatcher.Listener.Main.Restart.{IsRestarted, round-IsRestarted}
use socket_dispatcher.Listener.Main.Rounds.{Running}
use socket_dispatcher.Listener.Main.Sound.{IsSound}
use socket_dispatcher.Listener.Main.Safety.{run-Running}
use socket_dispatcher.Tests.{
  returned, returned_lem, demo_os, demo_world, empty_list, listener_config, listener_world,
  listener_list,
}

process_dispatcher_connection-trace_example :
    (w' : World) × (process_dispatcher_connection demo_os
        (codes "42")
        listener_config
        2
        listener_list
        listener_world
      ≡ ok (true, (put_socket 5 listener_list).1, w'))
    × (w'.trace ≡ (
        if (put_socket 5 listener_list).0
        then write (pos 9) (config_message (codes "42") listener_config)
          ∷ write (pos 9) config_label
          ∷ accept (pos 4)
          ∷ []
        else close (pos 9)
          ∷ write (pos 9) (config_message (codes "42") listener_config)
          ∷ write (pos 9) config_label
          ∷ accept (pos 4)
          ∷ []))
unfolding c_string
process_dispatcher_connection-trace_example =
    process_dispatcher_connection-trace demo_os (codes "42") listener_config (λ t fd m. refl)
      (omega arith) 2 listener_list listener_world refl refl

process_client_connection-passed_example :
    (w' : World) × (t : Trace) × (process_client_connection demo_os 1
        (1 ∷ 2 ∷ 3 ∷ 4 ∷ [])
        listener_world
      ≡ ok (true, w'))
    × (w'.trace ≡ close (pos 9) ∷ t)
    × (passed t ≡ (pos 8, some (pos 9)) ∷ (pos 7, some (pos 9)) ∷ [])
process_client_connection-passed_example =
    process_client_connection-passed demo_os (λ t. refl) 1 (1 ∷ 2 ∷ 3 ∷ 4 ∷ []) listener_world refl
      refl refl (omega arith)

-- A client and then a dispatcher connect to the listener.
abbrev listener_turn : Result (SocketsList × World)
listener_turn =
    process_sockets demo_os (codes "42") listener_config (1 ∷ 2 ∷ []) listener_list listener_world

abbrev turned : Result (SocketsList × World) → SocketsList × World
turned (ok x) = x
turned (halt h) = (empty_list, demo_world)

listener_turn_returns : listener_turn ≡ ok ((turned listener_turn).0, (turned listener_turn).1)
unfolding process_sockets process_listener process_client_connection process_dispatcher_connection
    accept_connection accept_by accept_ssl make_socket new_socket pass_client send_socket
    message_for ensure_control send_config put_socket destroy class_destructor c_string
listener_turn_returns = refl

-- The listener while a dispatcher connects, up to the request to exit.
abbrev demo_listener : Listener
demo_listener = record {
  world = listener_world;
  config = listener_config;
  globals = initial_globals;
  disp_pid = pos 77;
  sockets = listener_list;
  ready = new_sockets_list 100;
  tcp_listener = 1;
  unix_listener = 2;
}

abbrev listener_run : Result Listener
listener_run = run demo_os (codes "42") 2 demo_listener

abbrev listener_end : Listener
listener_end = returned demo_listener listener_run

listener_run_returns : listener_run ≡ ok listener_end
unfolding run round prepare react request_all release clear new_sockets_list poll_sockets
    poll_outcome fill_poll_info collect process_sockets process_listener
    process_dispatcher_connection accept_connection accept_by make_socket new_socket send_config
    put_socket c_string
listener_run_returns = returned_lem demo_listener listener_run refl

listener-IsSound : IsSound listener_world
listener-IsSound r =
    let P = λ (s : Socket). s.listen_socket ≡ true → accepts s.class ≡ true in
    if-both P (r == 1) (λ on. refl) (if-both P (r == 2) (λ on. refl) (λ on. cc))

run-Running_example : Running listener_config IsSound listener_end
run-Running_example =
    run-Running demo_os (codes "42") 2 demo_listener (omega arith, refl, listener-IsSound)
      listener_run_returns

-- A client whose handshake fails.
abbrev unsafe_os : Os
unsafe_os = record demo_os { ssl_accepted = λ t fd. minus_one }

process_client_connection-Leaves_example :
    (done : Bool) × (w' : World) × (process_client_connection unsafe_os 1
        (3 ∷ 4 ∷ [])
        listener_world
      ≡ ok (done, w'))
    × (open_descriptors unsafe_os w'.trace ≡ (if done then [] else pos 9 ∷ []))
process_client_connection-Leaves_example =
    process_client_connection-Leaves unsafe_os 1 (3 ∷ 4 ∷ []) listener_world refl

unsafe_turn :
    process_client_connection unsafe_os 1 (3 ∷ 4 ∷ []) listener_world
    ≡ ok (
      false,
      record listener_world {
        trace = ssl_accept (pos 9) ∷ bio_new_socket (pos 9) ∷ accept (pos 3) ∷ [];
      },
    )
unfolding process_client_connection accept_connection accept_by accept_ssl
unsafe_turn = refl

-- A poll that times out while a child has ended.
abbrev idle_os : Os
idle_os = record demo_os {
  polled = λ t entries. record { ret = pos 0; errno_is_eintr = false; revents = λ i. no_events };
  child_waited = λ t. pos 77;
  forked = λ t. pos 78;
}

abbrev idle_prepared : Listener
idle_prepared = prepare idle_os (codes "42") demo_listener

round-IsRestarted_example :
    (l' : Listener) × (round idle_os (codes "42") demo_listener ≡ ok (true, l'))
    × IsRestarted idle_os
        (codes "42")
        demo_listener
        (poll (entries_of idle_prepared.world (1 ∷ 2 ∷ 3 ∷ 4 ∷ [])) ∷ idle_prepared.world.trace)
        l'
unfolding prepare release request_all
round-IsRestarted_example =
    round-IsRestarted idle_os (codes "42") demo_listener (omega arith) (ground arith) refl refl

say_goodbye-dispatchers_example :
    say_goodbye (1 ∷ 2 ∷ 3 ∷ 4 ∷ []) listener_world ≡ record listener_world {
      trace = write (pos 8) (codes "EXIT") ∷ write (pos 7) (codes "EXIT") ∷ [];
    }
say_goodbye-dispatchers_example = say_goodbye-dispatchers (1 ∷ 2 ∷ 3 ∷ 4 ∷ []) listener_world
