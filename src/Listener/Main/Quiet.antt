-- ===== src/Listener/Main/Quiet.antt =====
-- The listener's child processes and its requests for input open and close nothing.
use socket_dispatcher.Prelude.{
  ◌≡◌, refl, false, List, [], ◌∷◌, if-both, if-cases, ℤ, pos, ◌==ℤ◌, is_negative, is_positive,
  minus_one, codes,
}
use socket_dispatcher.Socket.{poll_for_read}
use socket_dispatcher.World.{
  Ref, Os, World, Halt, assertion_failed, process_replaced, fork, exec, wait_child, call,
}
use socket_dispatcher.World.Outcomes.{Outcome, Outcome-return, Outcome-halt}
use socket_dispatcher.World.Quiet.{Quiet}
use socket_dispatcher.Listener.{say_goodbye, is_dispatcher}
use socket_dispatcher.Listener.Main.{
  run_child, create_dispatcher, wait_disp_child, request_all, my_sock_path,
}

-- What a child ends in.
pub record ChildExcuses (os : Os) (H : Halt → Type 0) : Type 0 where
  pub replaced : H process_replaced
  pub refused : (w : World) → os.executed w.trace ≡ false → H assertion_failed

module _ (Q : World → Type 0) (q : Quiet Q) where
  pub request_all-keeps : (rs : List Ref) (w : World) → Q w → Q (request_all rs w)
  unfolding request_all
  request_all-keeps [] w h = h
  request_all-keeps (r ∷ rs) w h =
      request_all-keeps rs _ (q.changes poll_for_read r w (λ o. (refl, refl, refl, refl, refl)) h)

  module _ (H : Halt → Type 0) (os : Os) (y : ChildExcuses os H) where
    abbrev Left : ℤ × ℤ × World → Type 0
    Left v = Q v.2

    run_child-keeps : (w : World) → Outcome H Left (run_child os w)
    unfolding run_child
    run_child-keeps w =
        let w' = call (exec (codes "mydisp") my_sock_path) w in
        if-cases (Outcome H Left) (os.executed w'.trace) (λ gone. Outcome-halt H Left y.replaced)
          (λ back. Outcome-halt H Left (y.refused w' back))

    pub create_dispatcher-keeps :
        (disp_pid : ℤ) (w : World) → Q w → Outcome H Left (create_dispatcher os disp_pid w)
    unfolding create_dispatcher
    create_dispatcher-keeps disp_pid w h =
        let k = q.calls fork w refl h in
        if-both (Outcome H Left) (is_negative (os.forked w.trace)) (Outcome-return H Left k) (
          if-both (Outcome H Left) (os.forked w.trace ==ℤ pos 0) (run_child-keeps (call fork w))
            (Outcome-return H Left k))

  pub say_goodbye-keeps : (rs : List Ref) (w : World) → Q w → Q (say_goodbye rs w)
  unfolding say_goodbye
  say_goodbye-keeps [] w h = h
  say_goodbye-keeps (r ∷ rs) w h =
      say_goodbye-keeps rs _ (if-both Q (is_dispatcher (w.cell r)) (q.calls _ w refl h) h)

  pub wait_disp_child-keeps : (os : Os) (w : World) → Q w → Q (wait_disp_child os w).1
  unfolding wait_disp_child
  wait_disp_child-keeps os w h =
      let P = λ (v : ℤ × World). Q v.1 in
      let k = q.calls wait_child w refl h in
      if-both P (os.child_waited w.trace ==ℤ minus_one) k
        (if-both P (is_positive (os.child_waited w.trace)) k k)
