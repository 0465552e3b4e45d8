-- ===== src/Poller/Answer.antt =====
-- One call of `pollSockets` as a whole: what it asks, what it stores, what it collects.
use socket_dispatcher.Prelude.{
  ℕ, suc, ◌≤◌, ◌≡◌, refl, ap, ◌∙◌, fun_ext, inl, inr, true, false, ◌||◌, List, [], ◌∷◌, ◌++◌,
  append-nil, arith, leb, if◌then◌else◌, if-else, Bool-cases, length, take, All, pos, ◌==ℤ◌,
  minus_one,
}
use socket_dispatcher.Socket.{PollMask, no_events, set_revents}
use socket_dispatcher.World.{Ref, PollResult, Os, World, ok, call, poll}
use socket_dispatcher.SocketsList.{SocketsList, ErrorType, success}
use socket_dispatcher.SocketsList.Delete.{contains, Distinct}
use socket_dispatcher.SocketsList.Full.{IsBounded}
use socket_dispatcher.Poller.{
  max_sockets_to_poll, fill_poll_info, collect, poll_outcome, poll_sockets,
}
use socket_dispatcher.Poller.Masks.{entries_of, bits_after, error_of, active, Stored, reset, Marked}
use socket_dispatcher.Poller.Fill.{
  fill_poll_info-cell, fill_poll_info-frame, fill_poll_info-entries, fill_poll_info-reset,
  Stored-reset, Cleared-reset,
}
use socket_dispatcher.Poller.Collect.{
  collect-frame, collect-other, collect-Marked, collect-sockets, take-short,
}

Stored-Marked :
    (bits : ℕ → PollMask) (i : ℕ) (rs : List Ref) (w w₁ w' : World)
    → All (λ r. w₁.cell r ≡ reset (w.cell r)) rs
    → Marked bits i rs w₁ w'
    → Stored bits i rs w w'
Stored-Marked bits i [] w w₁ w' h m = tt
Stored-Marked bits i (r ∷ rs) w w₁ w' h m =
    (m.0 ∙ ap (set_revents (bits i)) h.0, Stored-Marked bits (suc i) rs w w₁ w' h.1 m.1)

active_none : (i : ℕ) (rs : List Ref) → active (λ _. no_events) i rs ≡ []
active_none i [] = refl
active_none i (r ∷ rs) = active_none (suc i) rs

-- The whole effect of a call with answer `p`.
abbrev pub Polled :
    PollResult → SocketsList → SocketsList → World → ErrorType × World × SocketsList → Type 0
Polled p input out w (e, w', out') =
    (e ≡ error_of p)
    × (w'.next ≡ w.next)
    × Stored (bits_after p) 0 input.sockets w w'
    × ((q : Ref) → w'.cell q ≡ (if contains q input.sockets then w'.cell q else w.cell q))
    × (out' ≡ record out {
      sockets = take out.max_size (out.sockets ++ active (bits_after p) 0 input.sockets);
    })

poll_outcome-trace :
    (p : PollResult) (rs : List Ref) (w : World) (out : SocketsList)
    → (poll_outcome p rs w out).1.trace ≡ w.trace
unfolding poll_outcome
poll_outcome-trace p rs w out = ground (arith, collect-frame p.revents 0 rs w out)

module _ (p : PollResult) (input out : SocketsList) (w w₁ : World) (bounded : IsBounded out)
    (same_next : w₁.next ≡ w.next)
    (reset_all : All (λ r. w₁.cell r ≡ reset (w.cell r)) input.sockets)
    (others : (q : Ref) → contains q input.sockets ≡ false → w₁.cell q ≡ w.cell q) where
  Polled-quiet :
      (e : ErrorType)
      → bits_after p ≡ (λ _. no_events)
      → e ≡ error_of p
      → Polled p input out w (e, w₁, out)
  Polled-quiet e b x = (
    x,
    same_next,
    rw b (Stored-reset 0 input.sockets w w₁ reset_all),
    λ q. if-else (contains q input.sockets) _ _ (others q),
    rw b (
        ground (
          arith,
          active_none 0 input.sockets,
          append-nil out.sockets,
          take-short out.max_size out.sockets bounded,
        )),
  )

  Polled-active :
      Distinct input.sockets
      → bits_after p ≡ p.revents
      → success ≡ error_of p
      → Polled p input out w (
        success,
        (collect p.revents 0 input.sockets w₁ out).0,
        (collect p.revents 0 input.sockets w₁ out).1,
      )
  Polled-active d b x = (
    x,
    (collect-frame p.revents 0 input.sockets w₁ out).0 ∙ same_next,
    rw b (
        Stored-Marked p.revents 0 input.sockets w w₁ _ reset_all (
          collect-Marked p.revents 0 input.sockets w₁ out d
            (Cleared-reset input.sockets w w₁ reset_all))),
    λ q.
        if-else (contains q input.sockets) _ _
          (λ c. collect-other p.revents 0 input.sockets w₁ out q c ∙ others q c),
    rw b (collect-sockets p.revents 0 input.sockets w₁ out bounded),
  )

  poll_outcome-Polled :
      Distinct input.sockets → Polled p input out w (poll_outcome p input.sockets w₁ out)
  poll_outcome-Polled d = elim (Bool-cases (p.ret ==ℤ minus_one || p.ret ==ℤ pos 0)) [
    | inl e ↦
        let o : poll_outcome p input.sockets w₁ out ≡ (error_of p, w₁, out) =
          unfold poll_outcome in ground arith in
        rw o (Polled-quiet (error_of p) (fun_ext λ i. ground arith) refl)
    | inr e ↦
        let o : poll_outcome p input.sockets w₁ out ≡ (
          success,
          (collect p.revents 0 input.sockets w₁ out).0,
          (collect p.revents 0 input.sockets w₁ out).1,
        ) =
          unfold poll_outcome in ground arith in
        rw o (Polled-active d (fun_ext λ i. ground arith) (ground arith))
  ]

-- The answer of the system to the question about a list.
abbrev pub answer : Os → SocketsList → World → PollResult
answer os input w = os.polled w.trace (entries_of w input.sockets)

-- On a list of at most 1024 sockets, none of them twice, `pollSockets` returns: no assertion fails.
-- It asks the system once, for each socket's descriptor and requested bits in the order of the list.
-- Its value is the one that the answer calls for. Each socket of the list keeps all its fields but
-- the two masks: the requested bits are cleared, and the bits that it shows are those of the answer
-- (none on an error and on a timeout). No other object changes. The active sockets are appended to
-- the output list, in order, as far as its bound allows.
pub poll_sockets-Polled :
    (os : Os) (input out : SocketsList) (w : World)
    → length input.sockets ≤ max_sockets_to_poll
    → Distinct input.sockets
    → IsBounded out
    → (r : ErrorType × World × SocketsList) × (poll_sockets os input out w ≡ ok r)
      × (r.1.trace ≡ poll (entries_of w input.sockets) ∷ w.trace)
      × Polled (answer os input w) input out w r
unfolding poll_sockets
poll_sockets-Polled os input out w small d b =
    let w₁ = call (poll (entries_of w input.sockets)) (fill_poll_info input.sockets w).1 in
    let p = answer os input w in
    let frame = fill_poll_info-frame input.sockets w in
    let fits : leb (length input.sockets) max_sockets_to_poll ≡ true = ground arith in
    (
      poll_outcome p input.sockets w₁ out,
      rw (fits, fill_poll_info-entries input.sockets w d, frame.1),
      poll_outcome-trace p input.sockets w₁ out
          ∙ ap (◌∷◌ (poll (entries_of w input.sockets))) frame.1,
      poll_outcome-Polled p input out w w₁ b frame.0 (fill_poll_info-reset input.sockets w)
          (λ q c. fill_poll_info-cell input.sockets w q ∙ rw c) d,
    )
