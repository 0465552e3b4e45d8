-- ===== src/Dispatcher/Shutdown.antt =====
-- How the dispatcher's main loop ends when the listener is done.
use mathlib.Core.Path.{subst}
use socket_dispatcher.Prelude.{
  ℕ, zero, suc, ◌≤◌, ◌≡◌, refl, sym, ap, ◌∙◌, ◌⊎◌, inl, inr, Bool, true, false, List, ◌∷◌, ◌++◌,
  if◌then◌else◌, Bool-cases, length, ℤ, pos, ◌==ℤ◌, minus_one, Bytes, codes, starts_with,
}
use socket_dispatcher.Socket.{set_revents, Socket, unix, is_dropped, is_empty}
use socket_dispatcher.World.{
  Ref, ReadResult, Os, World, Trace, recv, poll, call, Result, ok, ◌>>=◌, descriptor_of,
}
use socket_dispatcher.SocketsList.{SocketsList, ErrorType, clear}
use socket_dispatcher.SocketsList.Delete.{Distinct}
use socket_dispatcher.Poller.{max_sockets_to_poll}
use socket_dispatcher.Poller.Masks.{entries_of}
use socket_dispatcher.Poller.Answer.{answer}
use socket_dispatcher.Dispatcher.{
  Dispatcher, dispatcher_process, serve, serve_all, prepare, react, round, run,
}
use socket_dispatcher.Poller.First.{poll_sockets-first}

-- What the dispatcher takes for the end: the socket to the listener is dropped, or nothing more is
-- to come over it, or "EXIT" has come.
abbrev pub IsFarewell : Socket → ReadResult → Type 0
IsFarewell s message =
    (is_dropped s ≡ true)
    ⊎ ((message.ret ≡ pos 0)
        ⊎ ((message.ret ≡ pos 4) × (junk : Bytes) × (message.buffer ≡ codes "EXIT" ++ junk)))

module _ (os : Os) (stack : Bytes) (fuel : ℕ) where
  -- The message that waits, and the world after a look at it.
  abbrev pub waiting : Dispatcher → ReadResult
  waiting d = os.received d.world.trace (descriptor_of d.world d.unix_socket) 200 true

  abbrev looked : Dispatcher → World
  looked d = call (recv (descriptor_of d.world d.unix_socket) 200 true) d.world

  IsFarewell-moved :
      (s s' : Socket) (t t' : Trace)
      → s' ≡ s
      → t' ≡ t
      → IsFarewell s (os.received t s.descriptor 200 true)
      → IsFarewell s' (os.received t' s'.descriptor 200 true)
  IsFarewell-moved s s' t t' e f h =
      subst (λ (x : Socket). IsFarewell x (os.received t' x.descriptor 200 true)) (sym e)
        (subst (λ (l : Trace). IsFarewell s (os.received l s.descriptor 200 true)) (sym f) h)

  -- The turn is refused, with at most one look at the message.
  abbrev Refuses : Dispatcher → Result (Bool × Dispatcher) → Type 0
  Refuses d m = (b : Bool) × (m ≡ ok (false, record d { world = if b then looked d else d.world }))

  dispatcher_process-Refuses :
      (d : Dispatcher)
      → IsFarewell (d.world.cell d.unix_socket) (waiting d)
      → Refuses d (dispatcher_process os stack fuel d)
  unfolding dispatcher_process starts_with
  dispatcher_process-Refuses d (inl dropped) = (false, rw (dispatcher_process, dropped) refl)
  dispatcher_process-Refuses d (inr (inl ended)) =
      elim (Bool-cases (is_dropped (d.world.cell d.unix_socket))) [
        | inl dropped ↦ (false, rw (dispatcher_process, dropped) refl)
        | inr alive ↦ (true, rw (dispatcher_process, alive, ended) refl)
      ]
  dispatcher_process-Refuses d (inr (inr (four, junk, bytes))) =
      elim (Bool-cases (is_dropped (d.world.cell d.unix_socket))) [
        | inl dropped ↦ (false, rw (dispatcher_process, dropped) refl)
        | inr alive ↦ (true, rw (dispatcher_process, alive, four, bytes) refl)
      ]

  serve_all-Refuses :
      (rest : List Ref) (d : Dispatcher)
      → (d.world.cell d.unix_socket).socket_type ≡ unix
      → IsFarewell (d.world.cell d.unix_socket) (waiting d)
      → (b : Bool) × (serve_all os stack fuel (d.unix_socket ∷ rest) d
          ≡ ok (record d { world = if b then looked d else d.world; failed = true }))
  unfolding serve_all serve
  serve_all-Refuses rest d u h =
      let (b, e) = dispatcher_process-Refuses d h in (b, rw (serve_all, u) (rw (serve, e) refl))

  run-failed : (n : ℕ) (d : Dispatcher) → d.failed ≡ true → run os stack fuel n d ≡ ok d
  unfolding run
  run-failed zero d h = refl
  run-failed (suc n) d h = simp (run, h) refl

  run-round :
      (n : ℕ) (d d' : Dispatcher)
      → d.failed ≡ false
      → round os stack fuel d ≡ ok d'
      → d'.failed ≡ true
      → run os stack fuel (suc n) d ≡ ok d'
  unfolding run
  run-round n d d' h e f = simp (run, h, e) (run-failed n d' f)

  -- What a dispatcher that has ended leaves: its clients as they were, with at most one look at the
  -- message after the poll.
  abbrev pub IsEnded : Dispatcher → ℤ → Trace → Dispatcher → Type 0
  IsEnded d fd t d' =
      (d'.failed ≡ true)
      × (d'.sockets ≡ d.sockets)
      × ((d'.world.trace ≡ t) ⊎ (d'.world.trace ≡ recv fd 200 true ∷ t))

  IsEnded-looked :
      (d : Dispatcher) (b : Bool)
      → IsEnded d
          (descriptor_of d.world d.unix_socket)
          d.world.trace
          (record d { world = if b then looked d else d.world; failed = true })
  IsEnded-looked d true = (refl, refl, inr refl)
  IsEnded-looked d false = (refl, refl, inl refl)

  -- A round in which the poll succeeds and shows some bit of the socket to the listener, the first of
  -- at most 1024 different sockets, and the listener is done: it has hung up, nothing more is to come
  -- from it, or "EXIT" has come. Then the main loop ends with that round, however many are granted;
  -- no client is served in it, and the list is left as it is.
  pub run-IsEnded :
      (d : Dispatcher) (rest : List Ref)
      → let u = d.unix_socket in
        let p = prepare os stack fuel d in
        let a = answer os p.sockets p.world in
        let t = poll (entries_of p.world p.sockets.sockets) ∷ p.world.trace in
        let fd = descriptor_of p.world u in
        d.failed ≡ false
        → d.sockets.sockets ≡ u ∷ rest
        → length d.sockets.sockets ≤ max_sockets_to_poll
        → Distinct d.sockets.sockets
        → 1 ≤ d.ready.max_size
        → (p.world.cell u).socket_type ≡ unix
        → (a.ret ==ℤ minus_one) ≡ false
        → (a.ret ==ℤ pos 0) ≡ false
        → is_empty (a.revents 0) ≡ false
        → IsFarewell (set_revents (a.revents 0) (p.world.cell u)) (os.received t fd 200 true)
        → (d' : Dispatcher) × ((n : ℕ) → run os stack fuel (suc n) d ≡ ok d') × IsEnded d fd t d'
  unfolding run round prepare react clear
  run-IsEnded d rest going first small distinct room u_type answered active_some shown farewell =
      let p = prepare os stack fuel d in
      let u = d.unix_socket in
      let t = poll (entries_of p.world p.sockets.sockets) ∷ p.world.trace in
      let (w', out', others, e, traced, cell_u, ready) =
        poll_sockets-first os p.sockets p.ready p.world u rest small distinct first refl room
          answered active_some shown in
      let d₂ : Dispatcher = record p { world = w'; ready = out' } in
      let (b, done) =
        serve_all-Refuses others d₂ (ap (λ (s : Socket). s.socket_type) cell_u ∙ u_type)
          (IsFarewell-moved _ (w'.cell u) _ w'.trace cell_u traced farewell) in
      let d' : Dispatcher = record d₂ { world = if b then looked d₂ else w'; failed = true } in
      let round_ends : round os stack fuel d ≡ ok d' =
        ap
          (λ (m : Result (ErrorType × World × SocketsList)).
            m >>= λ x. react os stack fuel x.0 (record p { world = x.1; ready = x.2 }))
          e
        ∙ (ap (λ (l : List Ref). serve_all os stack fuel l d₂) ready ∙ done) in
      let same_fd = ap (λ (s : Socket). s.descriptor) cell_u in
      (
        d',
        (λ n. run-round n d d' going round_ends refl),
        subst (λ (k : ℤ). IsEnded d k t d') same_fd
            (subst (λ (l : Trace). IsEnded d (descriptor_of w' u) l d') traced
              (IsEnded-looked d₂ b)),
      )
