-- ===== src/Tests/Passings.antt =====
-- A descriptor that is sent and received.
use socket_dispatcher.Prelude.{
  ℕ, zero, suc, ◌≡◌, refl, inl, some, [], ◌∷◌, arith, ◌==◌, if◌then◌else◌, length, false, pos,
  minus_one,
}
use socket_dispatcher.World.{MessageResult, Os, World, ok, halt, sendmsg, out_of_fuel}
use socket_dispatcher.Passing.{send_socket, message_for, decide, receive_socket, ensure_control}
use socket_dispatcher.Passing.Transfer.{adopted, send_socket-decide}
use socket_dispatcher.Passing.Arrival.{receive_socket_returns}
use socket_dispatcher.Passing.Waiting.{asked, SkipsFor, receive_socket_spins}
use socket_dispatcher.Tests.{demo_os, demo_world}

-- Object 2 is sent over object 1, and the receiver is handed descriptor 12 for it.
abbrev demo_message : MessageResult
demo_message = record { ret = pos 2; buffer = 0 ∷ 0 ∷ 7 ∷ []; control = pos 12 }

abbrev after_send : World
after_send = record demo_world { trace = sendmsg (pos 3) (0 ∷ 0 ∷ []) (some (pos 8)) ∷ [] }

send_socket-decide_example :
    (after_send.trace
      ≡ sendmsg (pos 3) (message_for (pos 8)).0 (some (pos 8))
        ∷ (ensure_control demo_os demo_world).1.trace)
    × (decide demo_message demo_world ≡ ok (some (adopted (pos 12) demo_world)))
unfolding send_socket message_for ensure_control
send_socket-decide_example =
    send_socket-decide demo_os 1 2 demo_world after_send demo_world demo_message (7 ∷ []) refl refl
      refl

demo_skips : (k : ℕ) (w : World) → SkipsFor demo_os 1 k w
demo_skips zero w = tt
demo_skips (suc k) w = (inl refl, demo_skips k _)

-- A world in which no control data has been allocated.
abbrev first_world : World
first_world = record demo_world { control_buffer = false }

receive_socket_spins_example : receive_socket demo_os 1000 1 first_world ≡ halt out_of_fuel
unfolding ensure_control
receive_socket_spins_example =
    receive_socket_spins demo_os 1 first_world refl (λ k. demo_skips k _) 1000

-- The first `recvmsg` fails, the next ones find a passed descriptor.
abbrev late_os : Os
late_os = record demo_os {
  message_received = λ t fd.
      if length t == 0
      then record { ret = minus_one; buffer = []; control = pos 0 }
      else demo_message;
}

receive_socket_returns_example :
    receive_socket late_os 2 1 demo_world
    ≡ ok (adopted (pos 12) (asked late_os 1 (asked late_os 1 demo_world)))
unfolding message_for
receive_socket_returns_example =
    receive_socket_returns late_os 1 1 2 demo_world (pos 8) (7 ∷ []) (omega arith) refl
      (inl refl, tt) refl refl
