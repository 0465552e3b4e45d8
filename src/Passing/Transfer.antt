-- ===== src/Passing/Transfer.antt =====
-- The message that passes a descriptor: what one process sends, and what the other makes of it.
use socket_dispatcher.Prelude.{
  ℕ, suc, ◌-◌, ◌%◌, ◌≡◌, refl, true, false, Option, none, some, ◌∷◌, ◌++◌, arith, ◌==◌,
  if◌then◌else◌, ℤ, pos, negsuc, is_negative, is_positive, minus_one, neg_part, Bytes,
}
use socket_dispatcher.Socket.{plain, tcp, new_socket, fresh_socket, Socket}
use socket_dispatcher.World.{Ref, MessageResult, Os, World, sendmsg, alloc, ok, descriptor_of}
use socket_dispatcher.Passing.{
  message_for, next_descriptor, scan, adopt, decide, ensure_control, send_socket,
}

-- The socket that the receiver makes of a descriptor.
abbrev pub tcp_socket : ℤ → Socket
tcp_socket fd = fresh_socket plain fd tcp false

-- A new socket for a positive descriptor, and none for any other.
abbrev pub adopted : ℤ → World → Option Ref × World
adopted fd w = if is_positive fd then (some w.next, (alloc (tcp_socket fd) w).1) else (none, w)

pub adopt-adopted : (fd : ℤ) (w : World) → adopt fd w ≡ ok (adopted fd w)
unfolding adopt new_socket
adopt-adopted (pos n) w = ground arith
adopt-adopted (negsuc n) w = refl

-- The error status of a negative descriptor, as the receiver reads it: negative again.
abbrev error_status : ℕ → ℤ
error_status n = negsuc ((if suc n % 256 == 0 then 1 else suc n % 256) - 1)

scan-message_for :
    (fd control : ℤ) (junk : Bytes)
    → scan control 0 2 ((message_for fd).0 ++ junk) none
      ≡ ok (some (if is_negative fd then error_status (neg_part fd) else control))
unfolding message_for scan next_descriptor
scan-message_for (pos n) control junk = refl
scan-message_for (negsuc n) control junk = ground arith

adopted-sign :
    (fd control : ℤ) (w : World)
    → adopted (if is_negative fd then error_status (neg_part fd) else control) w
      ≡ adopted (if is_negative fd then minus_one else control) w
adopted-sign (pos n) control w = refl
adopted-sign (negsuc n) control w = refl

pub decide-message_for :
    (fd : ℤ) (m : MessageResult) (junk : Bytes) (w : World)
    → m.ret ≡ pos 2
    → m.buffer ≡ (message_for fd).0 ++ junk
    → decide m w ≡ ok (some (adopted (if is_negative fd then minus_one else m.control) w))
unfolding decide
decide-message_for fd m junk w r b =
    rw (r, b)
      (rw (scan-message_for fd m.control junk) (
        rw (adopt-adopted (if is_negative fd then error_status (neg_part fd) else m.control) w)
          (rw (adopted-sign fd m.control w))))

pub control-message_for : (fd : ℤ) → (message_for fd).1 ≡ (if is_negative fd then none else some fd)
unfolding message_for
control-message_for (pos n) = refl
control-message_for (negsuc n) = refl

send_socket-trace :
    (os : Os) (sender to_send : Ref) (w w' : World)
    → send_socket os sender to_send w ≡ (true, w')
    → let fd = descriptor_of w to_send in
      w'.trace
      ≡ sendmsg (descriptor_of w sender) (message_for fd).0 (message_for fd).1
        ∷ (if is_negative fd then w.trace else (ensure_control os w).1.trace)
unfolding send_socket
send_socket-trace os sender to_send w w' e = ground arith

-- When `sendSocket` succeeds, its last call has sent two bytes over the sender's descriptor, with
-- the descriptor of the other socket as control data unless that is negative. When these bytes
-- arrive, whatever lies behind them in the buffer of `recvmsg`, the receiver makes a socket of the
-- number that the system hands it in the control data if that is positive, and otherwise, as for
-- every negative descriptor, it returns no socket.
pub send_socket-decide :
    (os : Os) (sender to_send : Ref) (w w' receiver : World) (m : MessageResult) (junk : Bytes)
    → let fd = descriptor_of w to_send in
      send_socket os sender to_send w ≡ (true, w')
      → m.ret ≡ pos 2
      → m.buffer ≡ (message_for fd).0 ++ junk
      → (w'.trace
          ≡ sendmsg
              (descriptor_of w sender)
              (message_for fd).0
              (if is_negative fd then none else some fd)
            ∷ (if is_negative fd then w.trace else (ensure_control os w).1.trace))
        × (decide m receiver
            ≡ ok (some (adopted (if is_negative fd then minus_one else m.control) receiver)))
send_socket-decide os sender to_send w w' receiver m junk e r b =
    let fd = descriptor_of w to_send in
    (
      rw (← control-message_for fd) (send_socket-trace os sender to_send w w' e),
      decide-message_for fd m junk receiver r b,
    )
