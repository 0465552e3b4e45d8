-- ===== src/Poller/Masks.antt =====
-- The words in which the effect of `pollSockets` is stated.
use socket_dispatcher.Prelude.{
  ℕ, suc, ◌≡◌, true, List, [], ◌∷◌, map, arith, if◌then◌else◌, All, pos, ◌==ℤ◌, minus_one,
}
use socket_dispatcher.Socket.{PollMask, Socket, no_events, is_empty, set_revents}
use socket_dispatcher.World.{Ref, PollFd, PollResult, World}
use socket_dispatcher.SocketsList.{ErrorType, error, interrupted, timeout, success}

-- The question: each socket's descriptor and requested bits, in the order of the list.
abbrev pub entries_of : World → List Ref → List PollFd
entries_of w = map λ r. record { fd = (w.cell r).descriptor; events = (w.cell r).events }

-- The bits that a socket at index `i` shows afterwards.
abbrev pub bits_after : PollResult → ℕ → PollMask
bits_after p i =
    if p.ret ==ℤ minus_one then no_events else if p.ret ==ℤ pos 0 then no_events else p.revents i

abbrev pub error_of : PollResult → ErrorType
error_of p =
    if p.ret ==ℤ minus_one
    then (if p.errno_is_eintr then interrupted else error)
    else if p.ret ==ℤ pos 0
    then timeout
    else success

-- The sockets with a bit set, in order.
abbrev pub active : (ℕ → PollMask) → ℕ → List Ref → List Ref
active bits i [] = []
active bits i (r ∷ rs) =
    if is_empty (bits i) then active bits (suc i) rs else r ∷ active bits (suc i) rs

-- Each socket of the list has lost its requested bits and shows the bits at its index, and its
-- other fields are as they were.
abbrev pub Stored : (ℕ → PollMask) → ℕ → List Ref → World → World → Type 0
Stored bits i [] w w' = Unit
Stored bits i (r ∷ rs) w w' =
    (w'.cell r ≡ record (w.cell r) { events = no_events; revents = bits i })
    × Stored bits (suc i) rs w w'

abbrev pub reset : Socket → Socket
reset s = record s { events = no_events; revents = no_events }

pub is_empty-no_events : (m : PollMask) → is_empty m ≡ true → m ≡ no_events
is_empty-no_events m h = ground arith

-- The sockets of the list show no bits yet.
abbrev pub Cleared : List Ref → World → Type 0
Cleared rs w = All (λ r. (w.cell r).revents ≡ no_events) rs

-- What the second loop makes of the sockets.
abbrev pub Marked : (ℕ → PollMask) → ℕ → List Ref → World → World → Type 0
Marked bits i [] w w' = Unit
Marked bits i (r ∷ rs) w w' =
    (w'.cell r ≡ set_revents (bits i) (w.cell r)) × Marked bits (suc i) rs w w'
