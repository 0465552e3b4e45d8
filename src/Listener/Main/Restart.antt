-- ===== src/Listener/Main/Restart.antt =====
-- What the listener does about its dispatcher when nothing else is to be done.
use mathlib.Core.Path.{subst}
use socket_dispatcher.Prelude.{
  zero, suc, ◌≤◌, ◌≡◌, refl, sym, ap, ◌∙◌, inl, inr, true, false, ◌∷◌, arith, if◌then◌else◌,
  if-cases, Bool-cases, length, ℤ, pos, negsuc, ◌==ℤ◌, is_negative, is_positive, minus_one, ==ℤ_iff,
  Bytes,
}
use socket_dispatcher.World.{Os, World, Trace, Result, ok, ◌>>=◌, poll, fork, wait_child, call}
use socket_dispatcher.SocketsList.{SocketsList, ErrorType, timeout, clear}
use socket_dispatcher.SocketsList.Delete.{Distinct}
use socket_dispatcher.Poller.{max_sockets_to_poll}
use socket_dispatcher.Poller.Masks.{entries_of}
use socket_dispatcher.Poller.Answer.{answer, poll_sockets-Polled}
use socket_dispatcher.Listener.Main.{
  Listener, create_dispatcher, wait_disp_child, restart, react, prepare, round,
}

-- The tests of `fork` in a parent.
parent_choice {ℓ} :
    {A : Type ℓ} (r : ℤ) (x y z : A)
    → (r ==ℤ pos 0) ≡ false
    → (if is_negative r then x else if r ==ℤ pos 0 then y else z) ≡ (if is_positive r then z else x)
parent_choice (pos zero) x y z h = cc
parent_choice (pos (suc n)) x y z h =
    let positive : is_positive (pos (suc n)) ≡ true = ground arith in rw (h, positive) refl
parent_choice (negsuc n) x y z h = refl

create_dispatcher-parent :
    (os : Os) (disp_pid : ℤ) (w : World)
    → let r = os.forked w.trace in
      (r ==ℤ pos 0) ≡ false
      → (status : ℤ) × (create_dispatcher os disp_pid w
          ≡ ok (status, (if is_positive r then r else disp_pid), call fork w))
unfolding create_dispatcher
create_dispatcher-parent os disp_pid w h =
    let r = os.forked w.trace in
    let w' = call fork w in
    let e : create_dispatcher os disp_pid w
        ≡ (if is_positive r then ok (pos 0, r, w') else ok (minus_one, disp_pid, w')) =
      parent_choice r (ok (minus_one, disp_pid, w')) _ (ok (pos 0, r, w')) h in
    elim (Bool-cases (is_positive r)) [
      | inl parent ↦ (pos 0, e ∙ rw parent refl)
      | inr failed ↦ (minus_one, e ∙ rw failed refl)
    ]

wait_disp_child-positive :
    (os : Os) (w : World)
    → let r = wait_disp_child os w in
      (is_positive r.0 ≡ is_positive (os.child_waited w.trace)) × (r.1 ≡ call wait_child w)
unfolding wait_disp_child
wait_disp_child-positive os w =
    let pid = os.child_waited w.trace in
    let P = λ (r : ℤ × World). (is_positive r.0 ≡ is_positive pid) × (r.1 ≡ call wait_child w) in
    if-cases P (pid ==ℤ minus_one)
      (λ failed. (sym (ap is_positive ((==ℤ_iff pid minus_one).0 failed)), refl))
      λ waited.
        if-cases P (is_positive pid) (λ ended. (refl, refl)) (λ running. (sym running, refl))

module _ (os : Os) (pid : Bytes) where
  -- What the branch on a timeout leaves, where the trace was `t` before.
  abbrev pub IsRestarted : Listener → Trace → Listener → Type 0
  IsRestarted l t l' =
      let ended = is_positive (os.child_waited t) in
      let forked = os.forked (wait_child ∷ t) in
      (l'.disp_pid
        ≡ (if ended then (if is_positive forked then forked else l.disp_pid) else l.disp_pid))
      × (l'.world.trace ≡ (if ended then fork ∷ wait_child ∷ t else wait_child ∷ t))
      × (l'.sockets ≡ l.sockets)

  restart-IsRestarted :
      (l : Listener)
      → (os.forked (wait_child ∷ l.world.trace) ==ℤ pos 0) ≡ false
      → (l' : Listener) × (restart os pid l ≡ ok (true, l')) × IsRestarted l l.world.trace l'
  unfolding restart
  restart-IsRestarted l h =
      let (same, after) = wait_disp_child-positive os l.world in
      elim (Bool-cases (is_positive (os.child_waited l.world.trace))) [
        | inl ended ↦
            let (status, made) =
              create_dispatcher-parent os l.disp_pid (call wait_child l.world) h in
            let w = call wait_child l.world in
            let r = os.forked w.trace in
            let l' : Listener = record l {
              world = call fork w;
              disp_pid = if is_positive r then r else l.disp_pid;
            } in
            (l', rw (restart, same, ended, after, made) refl, rw ended (refl, refl, refl))
        | inr running ↦
            let l' : Listener = record l { world = call wait_child l.world } in
            (l', rw (restart, same, running, after) refl, rw running (refl, refl, refl))
      ]

  -- A round of the listener that times out, in the parent of every process that it forks, goes on
  -- after one poll and one look at its children: if one has ended a process is forked, and its number
  -- is the new `disp_pid` if that succeeds; otherwise nothing more is done. The list is left as it
  -- is, and has at most 1024 different sockets.
  pub round-IsRestarted :
      (l : Listener)
      → let p = prepare os pid l in
        let t = poll (entries_of p.world p.sockets.sockets) ∷ p.world.trace in
        length l.sockets.sockets ≤ max_sockets_to_poll
        → Distinct l.sockets.sockets
        → (answer os p.sockets p.world).ret ≡ pos 0
        → (os.forked (wait_child ∷ t) ==ℤ pos 0) ≡ false
        → (l' : Listener) × (round os pid l ≡ ok (true, l')) × IsRestarted l t l'
  unfolding round prepare react clear
  round-IsRestarted l small distinct late parent =
      let p = prepare os pid l in
      let t = poll (entries_of p.world p.sockets.sockets) ∷ p.world.trace in
      let ((err, w', out'), e, traced, (called, next, stored, others, collected)) =
        poll_sockets-Polled os p.sockets p.ready p.world small distinct (omega arith) in
      let timed_out : err ≡ timeout = called ∙ rw late refl in
      let l₂ : Listener = record p { world = w'; ready = out' } in
      let (l', restarted, left) = restart-IsRestarted l₂ (rw traced parent) in
      (
        l',
        ap
              (λ (m : Result (ErrorType × World × SocketsList)).
                m >>= λ x. react os pid x.0 (record p { world = x.1; ready = x.2 }))
              e
            ∙ (ap (λ (k : ErrorType). react os pid k l₂) timed_out ∙ restarted),
        subst (λ (k : Trace). IsRestarted l k l') traced left,
      )
