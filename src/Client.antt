-- ===== src/Client.antt =====
-- `processClient` of mydisp.cpp: one turn of the dialogue with a client.
pub mod Dialogue
pub mod Frame
pub mod Elsewhere
pub mod Session
pub mod Reply
pub mod Quiet
use socket_dispatcher.Prelude.{
  Bool, true, false, not, ◌==◌, if◌then◌else◌, pos, ◌==ℤ◌, is_negative, is_positive, minus_one,
  Bytes, codes, starts_with,
}
use socket_dispatcher.Socket.{
  ClientStatus, hello, bye, echo, silent, is_dropped, is_read_available, is_write_available,
  set_client_status, set_revents, pollout_only,
}
use socket_dispatcher.World.{Ref, ReadResult, Os, World, modify}
use socket_dispatcher.SocketUtils.{read, write_message}

abbrev pub hello_message : Bytes
hello_message = codes "HELLO!!!!\n"

abbrev pub echo_message : Bytes
echo_message = codes "ECHOO!!!!\n"

abbrev pub bye_message : Bytes
bye_message = codes "BYE...\n"

abbrev pub probe_message : Bytes
probe_message = codes "EXIT\n"

-- The branches on what `read` gave, in the world after it. `true` goes on to the write part.
unfoldable pub handle_input : Os → Ref → ReadResult → World → Bool × World
handle_input os r input w =
    if input.ret ==ℤ pos 0
    then (let (n, w') = write_message os r probe_message w in (not (is_negative n), w'))
    else if is_positive input.ret
    then (let w' =
          if starts_with (codes "EXIT") input.buffer
          then modify r (set_client_status bye) w
          else w in
        (true, modify r (set_revents pollout_only) w'))
    else (false, w)

-- `if( clientSocket->isReadAvailable() ) { ... }`
unfoldable pub read_part : Os → Ref → World → Bool × World
read_part os r w =
    if is_read_available (w.cell r)
    then (let (input, w') = read os r 100 w in handle_input os r input w')
    else (true, w)

-- A message is sent, the status becomes `next`, and only the result -1 drops the client.
abbrev send : Os → Ref → Bytes → ClientStatus → World → Bool × World
send os r message next w =
    let (n, w') = write_message os r message w in
    (not (n ==ℤ minus_one), modify r (set_client_status next) w')

-- The message for each status. In `bye` the result of the write is not looked at.
unfoldable pub write_by_status : Os → Ref → ClientStatus → World → Bool × World
write_by_status os r hello w = send os r hello_message echo w
write_by_status os r echo w =
    let (n, w') = write_message os r echo_message w in (not (n ==ℤ minus_one), w')
write_by_status os r bye w = (false, (write_message os r bye_message w).1)
write_by_status os r silent w = (true, w)

-- `if( clientSocket->isWriteAvailable() ) { ... }` and the final return.
unfoldable pub write_part : Os → Ref → World → Bool × World
write_part os r w =
    if is_write_available (w.cell r)
    then write_by_status os r (w.cell r).client_status w
    else (true, w)

unfoldable pub process_client : Os → Ref → World → Bool × World
process_client os r w =
    if is_dropped (w.cell r)
    then (false, w)
    else (let (go_on, w') = read_part os r w in if go_on then write_part os r w' else (false, w'))
