-- ===== src/Poller/First.antt =====
-- The first socket of a list that is polled.
use mathlib.Core.Path.{subst}
use socket_dispatcher.Prelude.{
  ℕ, zero, suc, ◌≤◌, ◌≡◌, refl, ap, ◌∙◌, false, List, [], ◌∷◌, ◌++◌, arith, length, take, pos,
  ◌==ℤ◌, minus_one,
}
use socket_dispatcher.Socket.{PollMask, no_events, is_empty}
use socket_dispatcher.World.{Ref, Os, World, poll, ok}
use socket_dispatcher.SocketsList.{SocketsList, ErrorType, success}
use socket_dispatcher.SocketsList.Delete.{Distinct}
use socket_dispatcher.SocketsList.Full.{IsBounded}
use socket_dispatcher.Poller.{max_sockets_to_poll, poll_sockets}
use socket_dispatcher.Poller.Masks.{Stored, entries_of, active, bits_after}
use socket_dispatcher.Poller.Answer.{answer, poll_sockets-Polled}

-- The first of a list is collected, where it shows some bit.
take-active :
    (n : ℕ) (bits : ℕ → PollMask) (u : Ref) (rest : List Ref)
    → 1 ≤ n
    → is_empty (bits 0) ≡ false
    → (others : List Ref) × (take n (active bits 0 (u ∷ rest)) ≡ u ∷ others)
take-active zero bits u rest h e = absurd (omega arith)
take-active (suc n) bits u rest h e = (take n (active bits 1 rest), rw e refl)

-- What a poll that shows some bit of the first socket leaves of it and puts first.
pub poll_sockets-first :
    (os : Os) (input out : SocketsList) (w : World) (u : Ref) (rest : List Ref)
    → let a = answer os input w in
      length input.sockets ≤ max_sockets_to_poll
      → Distinct input.sockets
      → input.sockets ≡ u ∷ rest
      → out.sockets ≡ []
      → 1 ≤ out.max_size
      → (a.ret ==ℤ minus_one) ≡ false
      → (a.ret ==ℤ pos 0) ≡ false
      → is_empty (a.revents 0) ≡ false
      → (w' : World) × (out' : SocketsList) × (others : List Ref) × (poll_sockets os input out w
          ≡ ok (success, w', out'))
        × (w'.trace ≡ poll (entries_of w input.sockets) ∷ w.trace)
        × (w'.cell u ≡ record (w.cell u) { events = no_events; revents = a.revents 0 })
        × (out'.sockets ≡ u ∷ others)
poll_sockets-first os input out w u rest small distinct first blank room answered active_some
      shown =
    let a = answer os input w in
    let bounded : IsBounded out = rw blank (omega arith) in
    let ((err, w', out'), e, traced, (called, same_next, stored, others, collected)) =
      poll_sockets-Polled os input out w small distinct bounded in
    let bits : bits_after a 0 ≡ a.revents 0 = rw (answered, active_some) refl in
    let cell_u = (subst (λ (l : List Ref). Stored (bits_after a) 0 l w w') first stored).0 in
    let chosen = take-active out.max_size (bits_after a) u rest room (rw bits shown) in
    let succeeded : err ≡ success = called ∙ rw (answered, active_some) refl in
    (
      w',
      out',
      chosen.0,
      e ∙ ap (λ (k : ErrorType). ok (k, w', out')) succeeded,
      traced,
      cell_u ∙ ap (λ (m : PollMask). record (w.cell u) { events = no_events; revents = m }) bits,
      ap (λ (l : SocketsList). l.sockets) collected
          ∙ (ap (λ (l : List Ref). take out.max_size (l ++ active (bits_after a) 0 input.sockets))
                blank
              ∙ (ap (λ (l : List Ref). take out.max_size (active (bits_after a) 0 l)) first
                  ∙ chosen.1)),
    )
