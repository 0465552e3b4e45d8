-- ===== src/SocketsList/Registry.antt =====
-- The bounded set of descriptors that a list of sockets stands for, and the calls on both.
use socket_dispatcher.Prelude.{
  ℕ, suc, ◌-◌, ◌≡◌, Bool, true, false, not, ◌&&◌, ◌||◌, List, [], ◌∷◌, ◌==◌, if◌then◌else◌, length,
  ℤ, ◌==ℤ◌,
}
use socket_dispatcher.World.{Ref}
use socket_dispatcher.SocketsList.{SocketsList, put_socket, del_socket}

-- The calls that the program makes on the list of its sockets.
pub data ListCall : Type 0 where
  put del : Ref → ListCall

-- A set of descriptors with its size and its bound: a descriptor enters unless the set is full, and
-- one that is held can leave at any time.
pub record Registry : Type 0 where
  pub holds : ℤ → Bool
  pub count : ℕ
  pub bound : ℕ

unfoldable pub enter : ℤ → Registry → Bool × Registry
enter fd s =
    if s.count == s.bound
    then (false, s)
    else (true, record s { holds = λ k. (fd ==ℤ k) || s.holds k; count = suc s.count })

unfoldable pub leave : ℤ → Registry → Bool × Registry
leave fd s =
    if s.holds fd
    then (true, record s { holds = λ k. not (fd ==ℤ k) && s.holds k; count = s.count - 1 })
    else (false, s)

module _ (descriptor : Ref → ℤ) where
  -- The answers to a sequence of calls, and what it leaves: of a list, and of a registry.
  unfoldable pub list_call : ListCall → SocketsList → Bool × SocketsList
  list_call (put r) l = put_socket r l
  list_call (del r) l = del_socket descriptor r l

  unfoldable pub registry_call : ListCall → Registry → Bool × Registry
  registry_call (put r) s = enter (descriptor r) s
  registry_call (del r) s = leave (descriptor r) s

  unfoldable pub list_calls : List ListCall → SocketsList → List Bool × SocketsList
  list_calls [] l = ([], l)
  list_calls (c ∷ cs) l =
      let first = list_call c l in let rest = list_calls cs first.1 in (first.0 ∷ rest.0, rest.1)

  unfoldable pub registry_calls : List ListCall → Registry → List Bool × Registry
  registry_calls [] s = ([], s)
  registry_calls (c ∷ cs) s =
      let first = registry_call c s in
      let rest = registry_calls cs first.1 in (first.0 ∷ rest.0, rest.1)

  -- Each socket is put when the registry does not hold its descriptor, and none is deleted from a
  -- full registry.
  abbrev pub IsServed : List ListCall → Registry → Type 0
  IsServed [] s = Unit
  IsServed (put r ∷ cs) s =
      (s.holds (descriptor r) ≡ false) × IsServed cs (registry_call (put r) s).1
  IsServed (del r ∷ cs) s = ((s.count == s.bound) ≡ false) × IsServed cs (registry_call (del r) s).1

  abbrev pub listed : List Ref → ℤ → Bool
  listed [] k = false
  listed (x ∷ xs) k = (descriptor x ==ℤ k) || listed xs k

  -- What the abstract view keeps of a list.
  abbrev pub view : SocketsList → Registry
  view l = record { holds = listed l.sockets; count = length l.sockets; bound = l.max_size }
