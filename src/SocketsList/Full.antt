-- ===== src/SocketsList/Full.antt =====
-- The bound of a list.
use socket_dispatcher.World.{Ref}
use socket_dispatcher.Prelude.{◌≤◌, List, [], ◌∷◌, arith, length, length-append, ℤ}
use socket_dispatcher.SocketsList.{SocketsList, erase_first, put_socket, del_socket}

abbrev pub IsBounded : SocketsList → Type 0
IsBounded l = length l.sockets ≤ l.max_size

erase_first-length :
    (descriptor : Ref → ℤ) (fd : ℤ) (xs : List Ref)
    → length (erase_first descriptor fd xs).1 ≤ length xs
unfolding erase_first
erase_first-length descriptor fd [] = omega arith
erase_first-length descriptor fd (x ∷ xs) = ground (arith, erase_first-length descriptor fd xs)

pub put_socket-IsBounded : (r : Ref) (l : SocketsList) → IsBounded l → IsBounded (put_socket r l).1
unfolding put_socket
put_socket-IsBounded r l h = ground (arith, length-append l.sockets (r ∷ []))

pub del_socket-IsBounded :
    (descriptor : Ref → ℤ) (r : Ref) (l : SocketsList)
    → IsBounded l
    → IsBounded (del_socket descriptor r l).1
unfolding del_socket
del_socket-IsBounded descriptor r l h =
    ground (arith, erase_first-length descriptor (descriptor r) l.sockets)
