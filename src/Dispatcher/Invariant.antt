-- ===== src/Dispatcher/Invariant.antt =====
-- Invariants of the dispatcher: the rule for the loops of `main`, from the steps to a run.
use socket_dispatcher.Prelude.{
  ℕ, zero, suc, ◌≡◌, refl, ◌≢◌, Bool, true, List, [], ◌∷◌, arith, ==_refl, if-both, elim-both,
  Bytes,
}
use socket_dispatcher.Socket.{SocketType, tcp, ssl, unix, unknown}
use socket_dispatcher.World.{Ref, Os, Halt}
use socket_dispatcher.World.Outcomes.{Outcome, Outcome-return, Outcome-bind, Outcome-map}
use socket_dispatcher.SocketsList.Delete.{contains}
use socket_dispatcher.SocketsList.{ErrorType, error, interrupted, timeout, success}
use socket_dispatcher.Poller.{poll_sockets}
use socket_dispatcher.Dispatcher.{
  Dispatcher, dispatcher_process, serve_client, serve, serve_all, prepare, react, round, run,
}

-- The steps that change the state: a turn with a client, a turn with the listener, the mark of a
-- failure, and the poll at the head of a round. An invariant may speak of the sockets that were
-- found ready in the round.
pub record Preserved (os : Os) (stack : Bytes) (fuel : ℕ) (H : Halt → Type 0)
    (Inv : List Ref → Dispatcher → Type 0) : Type 0 where
  pub client :
      (ready : List Ref) (r : Ref) (d : Dispatcher)
      → contains r ready ≡ true
      → (d.world.cell r).socket_type ≢ unix
      → Inv ready d
      → Inv ready (serve_client os stack fuel r d)
  pub from_listener :
      (ready : List Ref) (d : Dispatcher)
      → Inv ready d
      → Outcome H (λ x. Inv ready x.1) (dispatcher_process os stack fuel d)
  pub failing :
      (ready : List Ref) (d : Dispatcher) → Inv ready d → Inv ready (record d { failed = true })
  pub polling :
      (ready : List Ref) (d : Dispatcher)
      → Inv ready d
      → let p = prepare os stack fuel d in
        Outcome H
          (λ x. Inv x.2.sockets (record p { world = x.1; ready = x.2 }))
          (poll_sockets os p.sockets p.ready p.world)

module _ (os : Os) (stack : Bytes) (fuel : ℕ) (H : Halt → Type 0)
    (Inv : List Ref → Dispatcher → Type 0) (steps : Preserved os stack fuel H Inv) where
  abbrev InvWith : List Ref → Bool × Dispatcher → Type 0
  InvWith ready x = Inv ready x.1

  serve-keeps :
      (ready : List Ref) (t : SocketType) (r : Ref) (d : Dispatcher)
      → contains r ready ≡ true
      → (d.world.cell r).socket_type ≡ t
      → Inv ready d
      → Outcome H (InvWith ready) (serve os stack fuel t r d)
  unfolding serve
  serve-keeps ready unix r d m e h =
      Outcome-bind H (InvWith ready) (InvWith ready) _ _ (steps.from_listener ready d h)
        λ answered k.
          Outcome-return H (InvWith ready)
            (if-both (Inv ready) answered.0 k (steps.failing ready answered.1 k))
  serve-keeps ready tcp r d m e h =
      Outcome-return H (InvWith ready) (steps.client ready r d m (λ k. cc (e, k)) h)
  serve-keeps ready ssl r d m e h =
      Outcome-return H (InvWith ready) (steps.client ready r d m (λ k. cc (e, k)) h)
  serve-keeps ready unknown r d m e h = Outcome-return H (InvWith ready) h

  serve_all-keeps :
      (ready rs : List Ref) (d : Dispatcher)
      → ((q : Ref) → contains q rs ≡ true → contains q ready ≡ true)
      → Inv ready d
      → Outcome H (Inv ready) (serve_all os stack fuel rs d)
  unfolding serve_all
  serve_all-keeps ready [] d m h = Outcome-return H (Inv ready) h
  serve_all-keeps ready (r ∷ rs) d m h =
      Outcome-bind H (InvWith ready) (Inv ready) _ _
        (serve-keeps ready (d.world.cell r).socket_type r d (m r (rw (==_refl r) refl)) refl h)
        λ served k.
          elim-both (Outcome H (Inv ready)) served.0
            (serve_all-keeps ready rs served.1 (λ q c. m q (ground arith)) k)
            (Outcome-return H (Inv ready) k)

  react-keeps :
      (e : ErrorType) (d : Dispatcher)
      → Inv d.ready.sockets d
      → Outcome H (Inv d.ready.sockets) (react os stack fuel e d)
  unfolding react
  react-keeps success d h = serve_all-keeps d.ready.sockets d.ready.sockets d (λ q c. c) h
  react-keeps timeout d h = Outcome-return H (Inv d.ready.sockets) h
  react-keeps error d h = Outcome-return H (Inv d.ready.sockets) (steps.failing d.ready.sockets d h)
  react-keeps interrupted d h = Outcome-return H (Inv d.ready.sockets) h

  -- The invariant, for some list of ready sockets.
  abbrev pub InvSome : Dispatcher → Type 0
  InvSome d = (ready : List Ref) × Inv ready d

  round-keeps : (d : Dispatcher) → InvSome d → Outcome H InvSome (round os stack fuel d)
  unfolding round
  round-keeps d h =
      let p = prepare os stack fuel d in
      Outcome-bind H (λ x. Inv x.2.sockets (record p { world = x.1; ready = x.2 })) InvSome _ _
        (steps.polling h.0 d h.1)
        λ polled k.
          Outcome-map H (Inv polled.2.sockets) InvSome _
            (react-keeps polled.0 (record p { world = polled.1; ready = polled.2 }) k)
            λ d' k'. (polled.2.sockets, k')

  -- What the steps keep, any number of rounds keeps, and no other halt occurs than in the steps.
  pub run-keeps : (n : ℕ) (d : Dispatcher) → InvSome d → Outcome H InvSome (run os stack fuel n d)
  unfolding run
  run-keeps zero d h = Outcome-return H InvSome h
  run-keeps (suc n) d h =
      elim-both (Outcome H InvSome) d.failed (Outcome-return H InvSome h)
        (Outcome-bind H InvSome InvSome _ _ (round-keeps d h) λ d' k. run-keeps n d' k)
