-- ===== src/Passing.antt =====
-- Descriptors passed between processes: `sendSocket` of SocketUtils.cpp and
-- ReceivedTcpSocketFactory.cpp.
pub mod Transfer
pub mod Waiting
pub mod Adoption
pub mod Arrival
pub mod Quiet
pub mod Ownership
use socket_dispatcher.Prelude.{
  ℕ, zero, suc, ◌-◌, ◌%◌, Bool, true, false, Option, none, some, [], ◌∷◌, ltb, ◌==◌, if◌then◌else◌,
  ℤ, pos, negsuc, ◌==ℤ◌, is_negative, is_positive, magnitude, Bytes,
}
use socket_dispatcher.Socket.{Socket, plain, tcp, new_socket}
use socket_dispatcher.World.{
  Ref, MessageResult, Os, World, sendmsg, recvmsg, malloc, call, alloc, Result, ok, halt,
  assertion_failed, buffer_overrun, out_of_fuel, ◌>>=◌, descriptor_of,
}

-- The two bytes of the message, and the descriptor in its control data. A negative descriptor is
-- sent as an error status: the low byte of its opposite, or 1 where that is 0.
unfoldable pub message_for : ℤ → Bytes × Option ℤ
message_for (pos n) = (0 ∷ 0 ∷ [], some (pos n))
message_for (negsuc n) =
    let status = suc n % 256 in (0 ∷ (if status == 0 then 1 else status) ∷ [], none)

-- `if (cmptr == NULL && (cmptr = malloc(...)) == NULL)`: false if that holds.
unfoldable pub ensure_control : Os → World → Bool × World
ensure_control os w = if w.control_buffer then (true, w) else (
  os.memory_left w.trace,
  record (call malloc w) { control_buffer = os.memory_left w.trace },
)

abbrev transmit : Os → ℤ → Bytes × Option ℤ → World → Bool × World
transmit os fd (bytes, control) w =
    (os.message_sent w.trace fd bytes control ==ℤ pos 2, call (sendmsg fd bytes control) w)

unfoldable pub send_socket : Os → Ref → Ref → World → Bool × World
unfolding message_for ensure_control
send_socket os sender to_send w =
    let fd = descriptor_of w sender in
    let m = message_for (descriptor_of w to_send) in
    if is_negative (descriptor_of w to_send)
    then transmit os fd m w
    else (let (ready, w') = ensure_control os w in
        if ready then transmit os fd m w' else (false, w'))

-- `status = *ptr & 0xFF` and the choice of `newfd`. Past the end of the buffer there is nothing to
-- read.
unfoldable pub next_descriptor : ℤ → Bytes → Result ℤ
next_descriptor control [] = halt buffer_overrun
next_descriptor control (b ∷ rest) =
    let status = b % 256 in ok (if status == 0 then control else negsuc (status - 1))

-- The scan of the message: `ptr` stands at index `i`, before the bytes of the third argument, and
-- `nr` shrinks by 2 at each null byte. (Where it would fall below 0 it stays at 0: in both cases no
-- index is below it.) The result is `newfd` once a status is known.
unfoldable pub scan : ℤ → ℕ → ℕ → Bytes → Option ℤ → Result (Option ℤ)
scan control i nr [] found = ok found
scan control i nr (b ∷ rest) found = elim (ltb i nr) [
  | true ↦ elim (b == 0) [
    | true ↦ next_descriptor control rest >>= λ fd. scan control (suc i) (nr - 2) rest (some fd)
    | false ↦ scan control (suc i) nr rest found
  ]
  | false ↦ ok found
]

-- The constructor of `TcpSocket`.
abbrev new_tcp_socket : ℤ → Option Socket
new_tcp_socket fd = new_socket plain fd tcp false

-- `if(newfd > 0) return make_shared<TcpSocket>(newfd); else return {};`
unfoldable pub adopt : ℤ → World → Result (Option Ref × World)
adopt fd w =
    if is_positive fd
    then (elim (new_tcp_socket fd) [
      | none ↦ halt assertion_failed
      | some s ↦ ok (some (alloc s w).0, (alloc s w).1)
    ])
    else ok (none, w)

-- What one answer of `recvmsg` means: `none` goes round the loop again.
unfoldable pub decide : MessageResult → World → Result (Option (Option Ref × World))
decide m w =
    if is_negative m.ret
    then ok none
    else if m.ret ==ℤ pos 0
    then ok (some (none, w))
    else (scan m.control 0 (magnitude m.ret) m.buffer none >>= λ found. elim found [
      | none ↦ ok none
      | some fd ↦ adopt fd w >>= λ r. ok (some r)
    ])

-- `ReceivedTcpSocketFactory::createSocket`, for at most `fuel` rounds of its loop.
unfoldable pub receive_socket : Os → ℕ → Ref → World → Result (Option Ref × World)
receive_socket os zero r w = halt out_of_fuel
receive_socket os (suc fuel) r w =
    let (ready, w') = ensure_control os w in
    let m = os.message_received w'.trace (descriptor_of w' r) in
    let w₁ = call (recvmsg (descriptor_of w' r)) w' in
    if ready
    then (decide m w₁ >>= λ outcome. elim outcome [
      | none ↦ receive_socket os fuel r w₁
      | some result ↦ ok result
    ])
    else ok (none, w')
