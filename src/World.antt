-- ===== src/World.antt =====
-- A process as the modules share it: the heap of its `Socket` objects, the calls that it has made of
-- the system and of OpenSSL, and the answers of these two, which are parameters of the model.
pub mod Outcomes
pub mod Ledger
pub mod Quiet
pub mod Ownership
use socket_dispatcher.Prelude.{
  ℕ, suc, Bool, true, false, Option, List, ◌∷◌, ◌==◌, if◌then◌else◌, ℤ, Bytes,
}
use socket_dispatcher.Socket.{PollMask, Socket}

-- A `Socket::Ptr`, by the number of its object.
abbrev pub Ref : Type 0
Ref = ℕ

-- `struct pollfd` as it is passed to `poll`.
pub record PollFd : Type 0 where
  pub fd : ℤ
  pub events : PollMask

-- The domains and the addresses of the sockets that the program opens: any host at a port, a path,
-- or a resolved host at a port.
pub data Domain : Type 0 where
  af_inet af_unix : Domain

pub data Address : Type 0 where
  any_host : ℕ → Address
  unix_path : Bytes → Address
  host : Bytes → ℕ → Address

-- The file status flags: O_NONBLOCK, and all others as a number.
pub record Flags : Type 0 where
  pub nonblock : Bool
  pub others : ℕ

-- One call of the system or of OpenSSL, with its arguments. Buffers are numbers of bytes.
pub data Call : Type 0 where
  poll : List PollFd → Call
  recv : ℤ → ℕ → Bool → Call
  write : ℤ → Bytes → Call
  bio_read : ℤ → ℕ → Call
  bio_write : ℤ → Bytes → Call
  recvmsg : ℤ → Call
  sendmsg : ℤ → Bytes → Option ℤ → Call
  accept : ℤ → Call
  ssl_accept : ℤ → Call
  bio_new_socket : ℤ → Call
  ssl_free : ℤ → Call
  unlink : Bytes → Call
  close : ℤ → Call
  malloc : Call
  ssl_ctx_new : Call
  ssl_ctx_free : Call
  use_certificate_chain_file : Bytes → Call
  use_private_key_file : Bytes → Bytes → Call
  load_verify_locations : Bytes → Call
  err_get_error : Call
  open_socket : Domain → Call
  set_reuse_address : ℤ → Call
  bind : ℤ → Address → Call
  listen : ℤ → ℕ → Call
  connect : ℤ → Address → Call
  get_host_by_name : Bytes → Call
  get_flags : ℤ → Call
  set_flags : ℤ → Flags → Call
  ssl_connect : ℤ → Call
  fork : Call
  exec : Bytes → Bytes → Call
  wait_child : Call
  sleep : ℕ → Call

-- The calls made so far, the newest first.
abbrev pub Trace : Type 0
Trace = List Call

pub record PollResult : Type 0 where
  pub ret : ℤ
  pub errno_is_eintr : Bool
  pub revents : ℕ → PollMask

-- The value that a read returns, and the whole buffer as the call leaves it: the bytes past those
-- that were read are whatever the memory held.
pub record ReadResult : Type 0 where
  pub ret : ℤ
  pub buffer : Bytes

-- `recvmsg`: its value, the buffer, and the `int` that lies in the control data.
pub record MessageResult : Type 0 where
  pub ret : ℤ
  pub buffer : Bytes
  pub control : ℤ

-- The system and OpenSSL. Each answer may depend on all that the process has called before. A host
-- resolves to the bytes of its first address, flags are read or not, `executed` tells whether
-- `execl` replaces the process, and `exit_requested` whether SIGINT has come by then.
pub record Os : Type 0 where
  pub polled : Trace → List PollFd → PollResult
  pub received : Trace → ℤ → ℕ → Bool → ReadResult
  pub written : Trace → ℤ → Bytes → ℤ
  pub bio_was_read : Trace → ℤ → ℕ → ReadResult
  pub bio_written : Trace → ℤ → Bytes → ℤ
  pub message_received : Trace → ℤ → MessageResult
  pub message_sent : Trace → ℤ → Bytes → Option ℤ → ℤ
  pub accepted : Trace → ℤ → ℤ
  pub ssl_accepted : Trace → ℤ → ℤ
  pub memory_left : Trace → Bool
  pub context_created : Trace → Bool
  pub certificate_used : Trace → Bytes → ℤ
  pub private_key_used : Trace → Bytes → Bytes → ℤ
  pub locations_loaded : Trace → Bytes → ℤ
  pub error_code : Trace → ℕ
  pub opened : Trace → Domain → ℤ
  pub bound : Trace → ℤ → Address → ℤ
  pub listened : Trace → ℤ → ℕ → ℤ
  pub connected : Trace → ℤ → Address → ℤ
  pub host_resolved : Trace → Bytes → Option Bytes
  pub flags_read : Trace → ℤ → Option Flags
  pub flags_set : Trace → ℤ → Flags → ℤ
  pub ssl_connected : Trace → ℤ → ℤ
  pub forked : Trace → ℤ
  pub executed : Trace → Bool
  pub child_waited : Trace → ℤ
  pub exit_requested : Trace → Bool

-- `control_buffer`: the static `cmptr`, which `sendSocket` (in the listener) or `createSocket` of the
-- received sockets (in the dispatcher) allocates at its first use, is allocated.
pub record World : Type 0 where
  pub next : Ref
  pub cell : Ref → Socket
  pub trace : Trace
  pub control_buffer : Bool

-- How a run can end other than by a return: an assertion fails, a buffer is overrun, a null pointer
-- is followed, an object of OpenSSL is released twice, an exception is thrown, `execl` replaces the
-- process, or the rounds granted to a loop are used up.
pub data Halt : Type 0 where
  assertion_failed buffer_overrun null_dereference exception_thrown process_replaced : Halt
  released_twice out_of_fuel : Halt

pub data Result {ℓ} (A : Type ℓ) : Type ℓ where
  ok : A → Result A
  halt : Halt → Result A

infixl 5 ◌>>=◌ ◌>>◌
abbrev pub ◌>>=◌ {ℓ κ} : {A : Type ℓ} {B : Type κ} → Result A → (A → Result B) → Result B
ok a >>= f = f a
halt h >>= f = halt h

abbrev pub ◌>>◌ {ℓ} : {B : Type ℓ} → Result (Unit {0}) → Result B → Result B
m >> k = m >>= λ _. k

abbrev pub assert : Bool → Result (Unit {0})
assert true = ok tt
assert false = halt assertion_failed

abbrev pub call : Call → World → World
call c w = record w { trace = c ∷ w.trace }

abbrev pub update : Ref → Socket → (Ref → Socket) → Ref → Socket
update r s cell q = if r == q then s else cell q

-- `s->method(...)` for a method that changes its object.
abbrev pub modify : Ref → (Socket → Socket) → World → World
modify r f w = record w { cell = update r (f (w.cell r)) w.cell }

-- `std::make_shared`.
abbrev pub alloc : Socket → World → Ref × World
alloc s w = (w.next, record w { next = suc w.next; cell = update w.next s w.cell })

abbrev pub descriptor_of : World → Ref → ℤ
descriptor_of w r = (w.cell r).descriptor
