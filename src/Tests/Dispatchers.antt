-- ===== src/Tests/Dispatchers.antt =====
-- A dispatcher with a full list, and turns with the listener.
use socket_dispatcher.Prelude.{
  ℕ, suc, ◌≡◌, refl, ◌≢◌, inl, inr, true, false, [], ◌∷◌, ◌++◌, arith, ◌==◌, if◌then◌else◌, length,
  pos, minus_one, codes, starts_with, c_string,
}
use socket_dispatcher.World.{Result, ok, halt, assertion_failed, null_dereference}
use socket_dispatcher.SocketsList.{put_socket, del_socket, erase_first, clear}
use socket_dispatcher.Poller.{poll_sockets, poll_outcome, fill_poll_info, collect}
use socket_dispatcher.SocketUtils.{read, write_message, release}
use socket_dispatcher.Client.{process_client, read_part, write_part, handle_input, write_by_status}
use socket_dispatcher.Ssl.{initial_globals}
use socket_dispatcher.Dispatcher.{
  Dispatcher, run, round, prepare, request_input, react, serve_all, serve, serve_client,
}
use socket_dispatcher.Dispatcher.Full.{run_full}
use socket_dispatcher.Dispatcher.Safety.{run-NoAssertion}
use socket_dispatcher.World.{Os, World, recv, bio_new_socket, call}
use socket_dispatcher.Passing.{message_for, ensure_control}
use socket_dispatcher.World.{poll}
use socket_dispatcher.Socket.{no_events}
use socket_dispatcher.Passing.Waiting.{asked, asked_times}
use socket_dispatcher.Dispatcher.{dispatcher_process}
use socket_dispatcher.Dispatcher.Shutdown.{IsEnded, run-IsEnded}
use socket_dispatcher.Poller.Masks.{entries_of}
use socket_dispatcher.Dispatcher.Entry.{Entered, dispatcher_process-Entered}
use socket_dispatcher.Dispatcher.Unready.{dispatcher_process-unset}
use socket_dispatcher.Dispatcher.Setup.{configured, message, dispatcher_process-configured}
use socket_dispatcher.Tests.{
  readable, listener_config, demo_list, returned, returned_lem, demo_os, demo_world, empty_list,
  full_list, demo_config,
}

-- A dispatcher whose list is full, and whose client says "EXIT" in the first round.
abbrev demo_dispatcher : Dispatcher
demo_dispatcher = record {
  world = demo_world;
  config = demo_config;
  globals = initial_globals;
  sockets = full_list;
  ready = empty_list;
  unix_socket = 1;
  failed = false;
}

abbrev demo_run : Result Dispatcher
demo_run = run demo_os [] 3 2 demo_dispatcher

abbrev demo_end : Dispatcher
demo_end = returned demo_dispatcher demo_run

demo_run_returns : demo_run ≡ ok demo_end
unfolding run round prepare release request_input react serve_all serve serve_client process_client
    read_part write_part handle_input write_by_status read write_message starts_with poll_sockets
    poll_outcome fill_poll_info collect put_socket del_socket clear erase_first
demo_run_returns = returned_lem demo_dispatcher demo_run refl

run_full_example : demo_end.sockets ≡ full_list
run_full_example = run_full demo_os [] 3 2 demo_dispatcher refl demo_run_returns

run-NoAssertion_example : demo_run ≢ halt assertion_failed
run-NoAssertion_example = run-NoAssertion demo_os [] 3 2 demo_dispatcher (omega arith)

-- A dispatcher with places left and its TLS context, and a system on which descriptor 12 waits after one failed
-- `recvmsg`.
abbrev open_dispatcher : Dispatcher
open_dispatcher = record demo_dispatcher {
  world = record demo_world { control_buffer = false };
  globals = record initial_globals { context = true };
  sockets = demo_list;
}

abbrev passing_os : Os
passing_os = record demo_os {
  received = λ t fd size peek. record { ret = pos 2; buffer = 0 ∷ 0 ∷ [] };
  message_received = λ t fd.
      if length t == 2
      then record { ret = minus_one; buffer = []; control = pos 0 }
      else record { ret = pos 2; buffer = 0 ∷ 0 ∷ []; control = pos 12 };
}

abbrev before_passing : World
before_passing = call (recv (pos 3) 200 true) open_dispatcher.world

-- The first client that is received: the control data is allocated for it.
abbrev passing_world : World
passing_world = (ensure_control passing_os before_passing).1

dispatcher_process-Entered_example :
    (d' : Dispatcher) × (dispatcher_process passing_os [] 2 open_dispatcher ≡ ok (true, d'))
    × Entered passing_os [] 2
        (pos 12)
        6
        (bio_new_socket (pos 12)
          ∷ (asked passing_os 1 (asked_times passing_os 1 1 passing_world)).trace)
        open_dispatcher
        d'
unfolding message_for ensure_control
dispatcher_process-Entered_example =
    dispatcher_process-Entered passing_os [] 2 open_dispatcher 1 (pos 8) [] refl refl (omega arith)
      refl refl (inl refl, tt) refl refl refl refl

-- The same before a TLS context is made.
abbrev unready_dispatcher : Dispatcher
unready_dispatcher = record open_dispatcher { globals = initial_globals }

dispatcher_process-unset_example :
    dispatcher_process passing_os [] 2 unready_dispatcher ≡ halt null_dereference
unfolding message_for ensure_control
dispatcher_process-unset_example =
    dispatcher_process-unset passing_os [] 2 unready_dispatcher 1 (pos 8) [] refl refl (omega arith)
      refl refl (inl refl, tt) refl refl refl refl

-- A system on which the whole message of the listener waits.
abbrev configuring_os : Os
configuring_os = record demo_os {
  received = λ t fd size peek. record {
    ret = pos (length (message (codes "42") listener_config));
    buffer = message (codes "42") listener_config ++ (7 ∷ []);
  };
}

dispatcher_process-configured_example :
    dispatcher_process configuring_os [] 2 open_dispatcher
    ≡ ok (
        configured configuring_os listener_config
          (record open_dispatcher { world = call (recv (pos 3) 4096 false) before_passing }))
unfolding c_string starts_with
dispatcher_process-configured_example =
    dispatcher_process-configured configuring_os [] 2 (codes "42") listener_config (omega arith)
      (omega arith) (omega arith) (omega arith) open_dispatcher (7 ∷ []) refl refl refl refl refl
      refl

-- A system on which "EXIT" waits and the first socket is readable.
abbrev exiting_os : Os
exiting_os = record demo_os {
  polled = λ t entries. record {
    ret = pos 1;
    errno_is_eintr = false;
    revents = λ i. if i == 0 then readable else no_events;
  };
}

abbrev exit_prepared : Dispatcher
exit_prepared = prepare exiting_os [] 2 demo_dispatcher

run-IsEnded_example :
    (d' : Dispatcher) × ((n : ℕ) → run exiting_os [] 2 (suc n) demo_dispatcher ≡ ok d')
    × IsEnded exiting_os [] 2 demo_dispatcher
        (pos 3)
        (poll (entries_of exit_prepared.world (1 ∷ 2 ∷ [])) ∷ exit_prepared.world.trace)
        d'
unfolding prepare release request_input
run-IsEnded_example =
    run-IsEnded exiting_os [] 2 demo_dispatcher (2 ∷ []) refl refl (omega arith) (refl, (refl, tt))
      (omega arith) refl refl refl refl (inr (inr (refl, [], refl)))
