-- ===== src/Tests/Clients.antt =====
-- A turn with a client that says "EXIT".
use socket_dispatcher.Prelude.{◌≡◌, refl, Bool, false, [], ◌∷◌, pos, codes, starts_with}
use socket_dispatcher.World.{World}
use socket_dispatcher.SocketUtils.{read, write_message}
use socket_dispatcher.Client.{
  process_client, read_part, write_part, handle_input, write_by_status, bye_message,
}
use socket_dispatcher.Client.Dialogue.{messages, Talked}
use socket_dispatcher.Client.Session.{Session, opened, turn, other_turn, session-Talked}
use socket_dispatcher.Client.Frame.{Steady, process_client-Steady}
use socket_dispatcher.Client.Reply.{Replied, process_client-Replied}
use socket_dispatcher.Tests.{demo_os, demo_world}

-- Client 3 has its turn before client 2.
abbrev demo_turn : Bool × World
demo_turn = process_client demo_os 2 (process_client demo_os 3 demo_world).1

demo-Session : Session demo_os 2 demo_world demo_turn.0 demo_turn.1
demo-Session = turn (other_turn 3 opened refl (λ e. cc) refl) refl

session-Talked_example : Talked (pos 8) 2 demo_turn.0 demo_turn.1
session-Talked_example = session-Talked demo_os 2 demo-Session refl refl

process_client-Steady_example : Steady 2 demo_world (process_client demo_os 2 demo_world).1
process_client-Steady_example = process_client-Steady demo_os 2 demo_world

process_client-Replied_example :
    Replied 2 (codes "EXIT") demo_world (process_client demo_os 2 demo_world)
unfolding read
process_client-Replied_example = process_client-Replied demo_os 2 demo_world refl refl refl

-- The client that sends "EXIT" hears the farewell and is dropped.
exit_turn : (demo_turn.0 ≡ false) × (messages (pos 8) demo_turn.1.trace ≡ bye_message ∷ [])
unfolding process_client read_part write_part handle_input write_by_status read write_message
    starts_with
exit_turn = (refl, refl)
