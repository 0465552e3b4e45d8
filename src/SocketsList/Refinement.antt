-- ===== src/SocketsList/Refinement.antt =====
-- The list of sockets refines a bounded set of descriptors.
use mathlib.Core.Path.{subst}
use socket_dispatcher.Prelude.{
  ℕ, ◌≡◌, refl, sym, ap, ◌∙◌, fun_ext, inl, inr, Bool, false, List, [], ◌∷◌, arith, Bool-cases,
  length-append, ℤ,
}
use socket_dispatcher.World.{Ref}
use socket_dispatcher.SocketsList.{SocketsList, put_socket, del_socket, is_full}
use socket_dispatcher.SocketsList.Delete.{Apart}
use socket_dispatcher.SocketsList.Registry.{
  ListCall, put, del, Registry, enter, leave, list_call, registry_call, list_calls, registry_calls,
  IsServed, listed, view,
}
use socket_dispatcher.SocketsList.Members.{
  listed-append, Apart-append, erase_first-Erased, unlisted,
}

abbrev registry : (ℤ → Bool) → ℕ → ℕ → Registry
registry h n b = record { holds = h; count = n; bound = b }

Registry-ext :
    {h h' : ℤ → Bool} {n n' : ℕ} (b : ℕ)
    → ((k : ℤ) → h k ≡ h' k)
    → n ≡ n'
    → registry h n b ≡ registry h' n' b
Registry-ext {n' = n'} b e f = rw f (ap (λ (g : ℤ → Bool). registry g n' b) (fun_ext e))

module _ (descriptor : Ref → ℤ) where
  -- A call on a list answers as the registry does, and keeps the view and the difference of the
  -- descriptors.
  abbrev Agrees : Bool × SocketsList → Bool × Registry → Type 0
  Agrees a b = (a.0 ≡ b.0) × (view descriptor a.1 ≡ b.1) × Apart descriptor a.1.sockets

  put-Agrees :
      (r : Ref) (l : SocketsList)
      → Apart descriptor l.sockets
      → listed descriptor l.sockets (descriptor r) ≡ false
      → Agrees (put_socket r l) (enter (descriptor r) (view descriptor l))
  unfolding put_socket enter
  put-Agrees r l a h = elim (Bool-cases (is_full l)) [
    | inl full ↦ rw (full, put_socket, enter) (refl, refl, a)
    | inr room ↦
        let e =
          Registry-ext l.max_size (listed-append descriptor l.sockets r)
            (length-append l.sockets (r ∷ []) ∙ omega arith) in
        rw (room, put_socket, enter) (refl, e, Apart-append descriptor l.sockets r a h)
  ]

  del-Agrees :
      (r : Ref) (l : SocketsList)
      → Apart descriptor l.sockets
      → is_full l ≡ false
      → Agrees (del_socket descriptor r l) (leave (descriptor r) (view descriptor l))
  unfolding del_socket leave
  del-Agrees r l a room =
      let fd = descriptor r in
      let (same, long, fewer, lacks, apart) = erase_first-Erased descriptor fd l.sockets a in
      elim (Bool-cases (listed descriptor l.sockets fd)) [
        | inl hit ↦
            let e = Registry-ext l.max_size fewer (long ∙ rw hit refl) in
            rw (room, del_socket, leave, hit) (same ∙ hit, e, apart)
        | inr miss ↦
            let others = λ (k : ℤ). fewer k ∙ unlisted descriptor fd l.sockets k miss in
            let e = Registry-ext l.max_size others (long ∙ rw miss refl) in
            rw (room, del_socket, leave, miss) (same ∙ miss, e, apart)
      ]

  list_call-Agrees :
      (c : ListCall) (cs : List ListCall) (l : SocketsList)
      → Apart descriptor l.sockets
      → IsServed descriptor (c ∷ cs) (view descriptor l)
      → Agrees (list_call descriptor c l) (registry_call descriptor c (view descriptor l))
        × IsServed descriptor cs (registry_call descriptor c (view descriptor l)).1
  unfolding list_call registry_call
  list_call-Agrees (put r) cs l a h = (put-Agrees r l a h.0, h.1)
  list_call-Agrees (del r) cs l a h = (del-Agrees r l a h.0, h.1)

  -- Over a sequence of calls in which each socket is put when no listed one has its descriptor, and
  -- none is deleted while the list is full, a list whose descriptors differ gives the answers of a
  -- bounded set of descriptors, and holds in the end what that set holds.
  pub list_calls-registry_calls :
      (cs : List ListCall) (l : SocketsList)
      → Apart descriptor l.sockets
      → IsServed descriptor cs (view descriptor l)
      → ((list_calls descriptor cs l).0 ≡ (registry_calls descriptor cs (view descriptor l)).0)
        × (view descriptor (list_calls descriptor cs l).1
            ≡ (registry_calls descriptor cs (view descriptor l)).1)
  unfolding list_calls registry_calls
  list_calls-registry_calls [] l a h = (refl, refl)
  list_calls-registry_calls (c ∷ cs) l a h =
      let ((answer, same, apart), fresh) = list_call-Agrees c cs l a h in
      let fresh' = subst (IsServed descriptor cs) (sym same) fresh in
      let (answers, view_after) =
        list_calls-registry_calls cs (list_call descriptor c l).1 apart fresh' in
      rw (answer, ← same)
        (ap (◌∷◌ (registry_call descriptor c (view descriptor l)).0) answers, view_after)
