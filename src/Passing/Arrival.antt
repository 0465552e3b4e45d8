-- ===== src/Passing/Arrival.antt =====
-- A passed descriptor that arrives, after any number of answers that decide nothing.
use socket_dispatcher.Prelude.{
  ℕ, zero, suc, ◌+◌, ◌-◌, ◌<◌, ◌≡◌, refl, ◌∙◌, true, ◌++◌, arith, if◌then◌else◌, ℤ, pos,
  is_negative, minus_one, Bytes,
}
use socket_dispatcher.World.{Ref, Os, World, ok}
use socket_dispatcher.Passing.{message_for, receive_socket}
use socket_dispatcher.Passing.Transfer.{adopted, decide-message_for}
use socket_dispatcher.Passing.Waiting.{
  answer_at, asked, SkipsFor, asked_times, ensure_control-ready, receive_socket_skips,
}

asked_times-control :
    (os : Os) (r : Ref) (k : ℕ) (w : World)
    → (asked_times os r k w).control_buffer ≡ w.control_buffer
asked_times-control os r zero w = refl
asked_times-control os r (suc k) w = asked_times-control os r k (asked os r w)

pub asked_times-next :
    (os : Os) (r : Ref) (k : ℕ) (w : World) → (asked_times os r k w).next ≡ w.next
asked_times-next os r zero w = refl
asked_times-next os r (suc k) w = asked_times-next os r k (asked os r w)

-- `createSocket` returns when a message of `sendSocket` arrives, however many answers before it
-- decide nothing, if it is granted more rounds than there are of these: it asks once more than
-- that, and makes a socket of the number in the control data if that is positive, or returns no
-- socket, as for every negative descriptor. Its control buffer has been allocated.
pub receive_socket_returns :
    (os : Os) (r : Ref) (k fuel : ℕ) (w : World) (fd : ℤ) (junk : Bytes)
    → let w₁ = asked_times os r k w in
      let m = answer_at os r w₁ in
      k < fuel
      → w.control_buffer ≡ true
      → SkipsFor os r k w
      → m.ret ≡ pos 2
      → m.buffer ≡ (message_for fd).0 ++ junk
      → receive_socket os fuel r w
        ≡ ok (adopted (if is_negative fd then minus_one else m.control) (asked os r w₁))
unfolding receive_socket
receive_socket_returns os r k zero w fd junk more c s e b = absurd (omega arith)
receive_socket_returns os r k (suc fuel) w fd junk more c s e b =
    let w₁ = asked_times os r k w in
    let rest : suc fuel ≡ k + suc (fuel - k) = omega arith in
    let ready = ensure_control-ready os w₁ (asked_times-control os r k w ∙ c) in
    receive_socket_skips os r k (suc fuel) (suc (fuel - k)) w rest c s
    ∙ rw (receive_socket, ready)
        (rw (decide-message_for fd (answer_at os r w₁) junk (asked os r w₁) e b))
