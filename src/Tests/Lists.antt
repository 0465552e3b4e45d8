-- ===== src/Tests/Lists.antt =====
-- The list of sockets and the poller in a small world.
use socket_dispatcher.Prelude.{◌≡◌, refl, true, List, [], ◌∷◌, arith, ℤ, pos}
use socket_dispatcher.World.{Ref, World, ok, poll, descriptor_of}
use socket_dispatcher.SocketsList.{SocketsList, ErrorType, del_socket}
use socket_dispatcher.SocketsList.Delete.{Erases, del_socket-Erases, del_socket-without}
use socket_dispatcher.Poller.{poll_sockets}
use socket_dispatcher.Poller.Masks.{entries_of}
use socket_dispatcher.Poller.Answer.{Polled, answer, poll_sockets-Polled}
use socket_dispatcher.SocketsList.Registry.{
  ListCall, put, del, registry_call, enter, leave, list_calls, registry_calls, view,
}
use socket_dispatcher.SocketsList.Refinement.{list_calls-registry_calls}
use socket_dispatcher.Tests.{demo_os, demo_world, demo_list, empty_list}

abbrev demo_descriptor : Ref → ℤ
demo_descriptor = descriptor_of demo_world

del_socket-Erases_example :
    Erases demo_descriptor (pos 8) (1 ∷ 2 ∷ 3 ∷ []) (
      (del_socket demo_descriptor 2 demo_list).0,
      (del_socket demo_descriptor 2 demo_list).1.sockets,
    )
del_socket-Erases_example = del_socket-Erases demo_descriptor 2 demo_list refl

del_socket-without_example :
    del_socket demo_descriptor 2 demo_list ≡ (true, record demo_list { sockets = 1 ∷ 3 ∷ [] })
del_socket-without_example = del_socket-without demo_descriptor 2 demo_list refl (ground arith) refl

poll_sockets-Polled_example :
    (r : ErrorType × World × SocketsList) × (poll_sockets demo_os demo_list empty_list demo_world
      ≡ ok r)
    × (r.1.trace ≡ poll (entries_of demo_world (1 ∷ 2 ∷ 3 ∷ [])) ∷ [])
    × Polled (answer demo_os demo_list demo_world) demo_list empty_list demo_world r
poll_sockets-Polled_example =
    poll_sockets-Polled demo_os demo_list empty_list demo_world (omega arith)
      (refl, (refl, (refl, tt))) (omega arith)

-- A client comes, two go, one of them twice, and another comes.
abbrev demo_calls : List ListCall
demo_calls = put 4 ∷ del 2 ∷ del 2 ∷ del 1 ∷ put 6 ∷ []

list_calls-registry_calls_example :
    ((list_calls demo_descriptor demo_calls demo_list).0
      ≡ (registry_calls demo_descriptor demo_calls (view demo_descriptor demo_list)).0)
    × (view demo_descriptor (list_calls demo_descriptor demo_calls demo_list).1
        ≡ (registry_calls demo_descriptor demo_calls (view demo_descriptor demo_list)).1)
unfolding registry_call enter leave
list_calls-registry_calls_example =
    list_calls-registry_calls demo_descriptor demo_calls demo_list (ground arith)
      (refl, (refl, (refl, (refl, (refl, tt)))))
