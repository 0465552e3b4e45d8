-- ===== src/Tests/Endings.antt =====
-- The dispatcher on a system that numbers its descriptors by the calls made so far: clients that are
-- passed to it once it is configured and say "EXIT", until the listener says so.
use socket_dispatcher.Prelude.{
  ℕ, ◌≡◌, refl, true, Option, none, some, [], ◌∷◌, ℤ, codes, starts_with, c_string,
}
use socket_dispatcher.Socket.{new_socket}
use socket_dispatcher.SocketUtils.{release, destroy, class_destructor}
use socket_dispatcher.SocketsList.{put_socket, clear, new_sockets_list}
use socket_dispatcher.Poller.{poll_sockets, poll_outcome, fill_poll_info, collect}
use socket_dispatcher.SocketFactory.{make_object}
use socket_dispatcher.World.{Ref, World, Result, ok}
use socket_dispatcher.World.Ledger.{open_descriptors, has, IsTidy}
use socket_dispatcher.Ssl.{initial_globals, create_context, load_key, load_locations}
use socket_dispatcher.Config.{process_config, read_lines}
use socket_dispatcher.Tests.{returned, returned_lem, demo_world}
use socket_dispatcher.Tests.Ownerships.{counting_os, counting_os-IsFresh, counting_os-BringsNew}
use socket_dispatcher.Dispatcher.Ownership.Orderly.{IsOrderly, run-IsOrderly}
use socket_dispatcher.Dispatcher.{
  Dispatcher, serve_all, serve, serve_client, request_input, dispatcher_process, receive_client,
  wrap_client, run, round, prepare, react, enter_client, receive_config, apply_config,
}
use socket_dispatcher.Dispatcher.Main.{dispatcher_main, start, loop, initial, finish}
use socket_dispatcher.Dispatcher.Ownership.{LeftOpen}
use socket_dispatcher.Dispatcher.Ownership.Whole.{dispatcher_main-IsTidy}
use socket_dispatcher.Passing.{receive_socket, decide, scan, next_descriptor, adopt, ensure_control}
use socket_dispatcher.Client.{process_client, read_part, handle_input, write_part, write_by_status}
use socket_dispatcher.SocketUtils.{wrap_ssl, make_ssl_socket, write_message, read}
use socket_dispatcher.SocketFactory.{create_unix_socket, set_nonblocking}
use socket_dispatcher.SocketsList.{del_socket, erase_first}

abbrev dispatcher_run : Result (ℕ × World)
dispatcher_run =
    dispatcher_main counting_os [] 3 20 (codes "dispatch.sock" ∷ []) initial_globals demo_world

abbrev dispatcher_end : ℕ × World
dispatcher_end = returned (1, demo_world) dispatcher_run

dispatcher_run_returns : dispatcher_run ≡ ok (dispatcher_end.0, dispatcher_end.1)
unfolding dispatcher_main start loop initial finish run round prepare react serve_all serve
    serve_client request_input dispatcher_process receive_client wrap_client enter_client
    receive_config apply_config process_config read_lines create_context load_key load_locations
    receive_socket decide scan next_descriptor adopt ensure_control wrap_ssl make_ssl_socket
    new_socket write_message read process_client read_part handle_input write_part write_by_status
    starts_with create_unix_socket set_nonblocking make_object put_socket del_socket erase_first
    clear new_sockets_list release destroy class_destructor poll_sockets poll_outcome fill_poll_info
    collect c_string
dispatcher_run_returns = returned_lem (1, demo_world) dispatcher_run refl

dispatcher_main-IsTidy_example :
    IsTidy counting_os dispatcher_end.1.trace
    × ((fd : ℤ)
        → has (open_descriptors counting_os dispatcher_end.1.trace) fd ≡ true
        → LeftOpen counting_os dispatcher_end.1.trace fd)
dispatcher_main-IsTidy_example =
    dispatcher_main-IsTidy counting_os [] 3 20 (codes "dispatch.sock" ∷ []) initial_globals
      demo_world counting_os-IsFresh counting_os-BringsNew refl dispatcher_run_returns

-- Its list after three rounds, of which the first brings a configuration.
abbrev connected : Option Ref × World
connected =
    returned (none, demo_world) (create_unix_socket counting_os (codes "dispatch.sock") demo_world)

abbrev three_rounds : Result Dispatcher
three_rounds = run counting_os [] 3 3 (initial counting_os [] 3 initial_globals 5 connected.1)

abbrev between : Dispatcher
between = returned (initial counting_os [] 3 initial_globals 5 connected.1) three_rounds

connected_returns :
    create_unix_socket counting_os (codes "dispatch.sock") demo_world ≡ ok (some 5, connected.1)
unfolding create_unix_socket set_nonblocking make_object new_socket c_string
connected_returns = refl

three_rounds_return : three_rounds ≡ ok between
unfolding initial run round prepare react serve_all serve serve_client request_input
    dispatcher_process receive_client wrap_client enter_client receive_config apply_config
    process_config read_lines create_context load_key load_locations receive_socket decide scan
    next_descriptor adopt ensure_control wrap_ssl make_ssl_socket new_socket write_message read
    process_client read_part handle_input write_part write_by_status starts_with create_unix_socket
    set_nonblocking make_object put_socket del_socket erase_first clear new_sockets_list release
    destroy class_destructor poll_sockets poll_outcome fill_poll_info collect c_string
three_rounds_return =
    returned_lem (initial counting_os [] 3 initial_globals 5 connected.1) three_rounds refl

run-IsOrderly_example : IsOrderly counting_os between
run-IsOrderly_example =
    run-IsOrderly counting_os [] 3 3 (codes "dispatch.sock") initial_globals demo_world
      counting_os-IsFresh counting_os-BringsNew refl connected_returns three_rounds_return
