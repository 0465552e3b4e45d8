-- ===== src/SocketsList.antt =====
-- SocketsList.h: a bounded list of shared sockets. A `Socket::Ptr` is the number of an object in
-- the heap of World.antt.
pub mod Delete
pub mod Distinct
pub mod Full
pub mod Registry
pub mod Members
pub mod Refinement
use socket_dispatcher.World.{Ref}
use socket_dispatcher.Prelude.{
  ℕ, ◌+◌, Bool, true, false, List, [], ◌∷◌, ◌++◌, ◌==◌, if◌then◌else◌, length, ℤ, ◌==ℤ◌,
}

pub data ErrorType : Type 0 where
  error interrupted timeout success : ErrorType

pub record SocketsList : Type 0 where
  pub sockets : List Ref
  pub max_size : ℕ

unfoldable pub new_sockets_list : ℕ → SocketsList
new_sockets_list max_size = record { sockets = []; max_size = max_size }

abbrev pub is_full : SocketsList → Bool
is_full l = length l.sockets == l.max_size

unfoldable pub put_socket : Ref → SocketsList → Bool × SocketsList
put_socket r l =
    if is_full l then (false, l) else (true, record l { sockets = l.sockets ++ r ∷ [] })

-- The loop of `delSocket`: the first element with this descriptor is erased.
unfoldable pub erase_first : (Ref → ℤ) → ℤ → List Ref → Bool × List Ref
erase_first descriptor fd [] = (false, [])
erase_first descriptor fd (x ∷ xs) =
    let rest = erase_first descriptor fd xs in
    if descriptor x ==ℤ fd then (true, xs) else (rest.0, x ∷ rest.1)

-- `descriptor` reads the descriptor of an object.
unfoldable pub del_socket : (Ref → ℤ) → Ref → SocketsList → Bool × SocketsList
unfolding erase_first
del_socket descriptor r l =
    if is_full l
    then (false, l)
    else let erased = erase_first descriptor (descriptor r) l.sockets in
      (erased.0, record l { sockets = erased.1 })

unfoldable pub clear : SocketsList → SocketsList
clear l = record l { sockets = [] }
