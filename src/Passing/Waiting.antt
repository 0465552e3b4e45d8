-- ===== src/Passing/Waiting.antt =====
-- How long `createSocket` of the received sockets goes on asking.
use socket_dispatcher.Prelude.{
  ℕ, zero, suc, ◌<◌, ◌+◌, ◌-◌, ◌≡◌, refl, sym, ap, ◌∙◌, ◌≢◌, ◌⊎◌, inl, inr, Bool, true, false,
  Option, none, some, if◌then◌else◌, [], ◌∷◌, arith, ltb, ◌==◌, Bool-cases, take, ℤ, pos, ◌==ℤ◌,
  is_negative, is_positive, magnitude, Bytes, IsText,
}
use socket_dispatcher.World.{
  Ref, MessageResult, Os, World, recvmsg, call, Result, ok, ◌>>=◌, halt, out_of_fuel, descriptor_of,
}
use socket_dispatcher.Passing.{scan, decide, receive_socket, ensure_control}

-- An answer that decides nothing: an error, or some bytes with no null byte among them.
abbrev pub IsSkipped : MessageResult → Type 0
IsSkipped m =
    (is_negative m.ret ≡ true)
    ⊎ ((is_positive m.ret ≡ true) × IsText (take (magnitude m.ret) m.buffer))

module _ (os : Os) (r : Ref) where
  abbrev pub answer_at : World → MessageResult
  answer_at w = os.message_received w.trace (descriptor_of w r)

  abbrev pub asked : World → World
  asked w = call (recvmsg (descriptor_of w r)) w

  -- The first `k` answers decide nothing.
  abbrev pub SkipsFor : ℕ → World → Type 0
  SkipsFor zero w = Unit
  SkipsFor (suc k) w = IsSkipped (answer_at w) × SkipsFor k (asked w)

  abbrev pub asked_times : ℕ → World → World
  asked_times zero w = w
  asked_times (suc k) w = asked_times k (asked w)

scan-IsText :
    (control : ℤ) (i nr : ℕ) (buffer : Bytes)
    → IsText (take (nr - i) buffer)
    → scan control i nr buffer none ≡ ok none
unfolding scan
scan-IsText control i nr [] h = refl
scan-IsText control i nr (b ∷ buffer) h = elim (Bool-cases (ltb i nr)) [
  | inl more ↦
      let e : nr - i ≡ suc (nr - suc i) = ground arith in
      let t : (b ≢ 0) × IsText (take (nr - suc i) buffer) = rw e at h in
      let not_null : (b == 0) ≡ false = ground (arith, t.0) in
      rw (more, not_null, scan) (scan-IsText control (suc i) nr buffer t.1)
  | inr done ↦ rw (done, scan)
]

decide-IsSkipped : (m : MessageResult) (w : World) → IsSkipped m → decide m w ≡ ok none
unfolding decide
decide-IsSkipped m w (inl e) = rw (e, decide)
decide-IsSkipped m w (inr (p, t)) =
    let negative : is_negative m.ret ≡ false = ground arith in
    let nonzero : (m.ret ==ℤ pos 0) ≡ false = ground arith in
    let whole : magnitude m.ret - 0 ≡ magnitude m.ret = omega arith in
    rw (negative, nonzero, decide)
      (rw (scan-IsText m.control 0 (magnitude m.ret) m.buffer (rw whole t)))

pub ensure_control-ready :
    (os : Os) (w : World) → w.control_buffer ≡ true → ensure_control os w ≡ (true, w)
unfolding ensure_control
ensure_control-ready os w c = ground arith

-- Control data that is there, or can be allocated, is there from then on.
pub ensure_control-kept :
    (os : Os) (w : World)
    → (ensure_control os w).0 ≡ true
    → (ensure_control os w).1.control_buffer ≡ true
unfolding ensure_control
ensure_control-kept os w h = ground arith

module _ (os : Os) (r : Ref) where
  receive_socket_at :
      (fuel : ℕ) (w w' : World)
      → ensure_control os w ≡ (true, w')
      → ensure_control os w' ≡ (true, w')
      → receive_socket os (suc fuel) r w ≡ receive_socket os (suc fuel) r w'
  unfolding receive_socket
  receive_socket_at fuel w w' h k =
      let go_on : Bool × World → Result (Option Ref × World) = λ p.
        let w₁ = call (recvmsg (descriptor_of p.1 r)) p.1 in
        if p.0
        then (decide (os.message_received p.1.trace (descriptor_of p.1 r)) w₁ >>= λ outcome.
            elim outcome [ none ↦ receive_socket os fuel r w₁ | some result ↦ ok result ])
        else ok (none, p.1) in
      ap go_on (h ∙ sym k)

  -- A first call allocates the control data and goes on as any other.
  receive_socket_first :
      (fuel : ℕ) (w : World)
      → (ensure_control os w).0 ≡ true
      → receive_socket os (suc fuel) r w ≡ receive_socket os (suc fuel) r (ensure_control os w).1
  receive_socket_first fuel w h =
      let w' = (ensure_control os w).1 in
      receive_socket_at fuel w w' (ap (λ (b : Bool). (b, w')) h)
        (ensure_control-ready os w' (ensure_control-kept os w h))

  pub receive_socket_entered :
      (n k : ℕ) (w : World)
      → k < n
      → (ensure_control os w).0 ≡ true
      → receive_socket os n r w ≡ receive_socket os n r (ensure_control os w).1
  receive_socket_entered zero k w more c = absurd (omega arith)
  receive_socket_entered (suc n) k w more c = receive_socket_first n w c

  -- Errors of `recvmsg` and messages with no null byte are passed over, one round of the loop each:
  -- after `k` of them the loop stands where it would stand had it been called then. The control
  -- data is allocated.
  pub receive_socket_skips :
      (k n fuel : ℕ) (w : World)
      → n ≡ k + fuel
      → w.control_buffer ≡ true
      → SkipsFor os r k w
      → receive_socket os n r w ≡ receive_socket os fuel r (asked_times os r k w)
  unfolding receive_socket
  receive_socket_skips zero n fuel w e c s = let same : n ≡ fuel = omega arith in rw same
  receive_socket_skips (suc k) zero fuel w e c s = absurd (omega arith)
  receive_socket_skips (suc k) (suc n) fuel w e c s = rw (ensure_control-ready os w c) (
      rw (decide-IsSkipped (answer_at os r w) (asked os r w) s.0) (
        rw (ensure_control-ready os w c)
          (receive_socket_skips k n fuel (asked os r w) (omega arith) c s.1)))

  -- Where the control data is allocated or there is memory for it, and all answers are errors or
  -- messages with no null byte, as when a socket that does not block has nothing to read, no number
  -- of rounds is enough: the loop never returns, in a first call or a later one.
  pub receive_socket_spins :
      (w : World)
      → (ensure_control os w).0 ≡ true
      → ((k : ℕ) → SkipsFor os r k (ensure_control os w).1)
      → (fuel : ℕ) → receive_socket os fuel r w ≡ halt out_of_fuel
  unfolding receive_socket
  receive_socket_spins w c s zero = refl
  receive_socket_spins w c s (suc fuel) =
      let w' = (ensure_control os w).1 in
      receive_socket_first fuel w c
      ∙ receive_socket_skips (suc fuel) (suc fuel) 0 w' (omega arith) (ensure_control-kept os w c)
          (s (suc fuel))
