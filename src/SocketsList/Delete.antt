-- ===== src/SocketsList/Delete.antt =====
-- What `delSocket` removes, on a list that is not full.
use socket_dispatcher.World.{Ref}
use socket_dispatcher.Prelude.{
  ℤ, ◌==ℤ◌, ==ℤ_iff, ==ℤ_refl, ◌≡◌, ◌≢◌, refl, sym, ap, Bool, true, false, not, ◌||◌, List, [], ◌∷◌,
  ◌++◌, ◌⊎◌, inl, inr, arith, All, Bool-cases, select, ◌==◌, ==_iff,
}
use socket_dispatcher.SocketsList.{SocketsList, erase_first, del_socket, is_full}

-- No member of the list has this descriptor.
abbrev pub Lacks : (Ref → ℤ) → ℤ → List Ref → Type 0
Lacks descriptor fd = All (λ x. descriptor x ≢ fd)

-- The descriptors of the members differ from one another.
abbrev pub Apart : (Ref → ℤ) → List Ref → Type 0
Apart descriptor [] = Unit
Apart descriptor (x ∷ xs) = Lacks descriptor (descriptor x) xs × Apart descriptor xs

abbrev pub contains : Ref → List Ref → Bool
contains r [] = false
contains r (x ∷ xs) = x == r || contains r xs

-- No object stands in the list twice.
abbrev pub Distinct : List Ref → Type 0
Distinct [] = Unit
Distinct (x ∷ xs) = (contains x xs ≡ false) × Distinct xs

-- The list without one object.
abbrev pub without : Ref → List Ref → List Ref
without r = select (λ x. not (x == r))

-- Either no member has the descriptor and nothing changes, or the first that has it is cut out.
abbrev pub Erases : (Ref → ℤ) → ℤ → List Ref → Bool × List Ref → Type 0
Erases descriptor fd xs result =
    (Lacks descriptor fd xs × (result ≡ (false, xs)))
    ⊎ ((before : List Ref) × (x : Ref) × (after : List Ref) × (xs ≡ before ++ x ∷ after)
        × Lacks descriptor fd before
        × (descriptor x ≡ fd)
        × (result ≡ (true, before ++ after)))

module _ (descriptor : Ref → ℤ) where
  erase_first-Erases :
      (fd : ℤ) (xs : List Ref) → Erases descriptor fd xs (erase_first descriptor fd xs)
  unfolding erase_first
  erase_first-Erases fd [] = inl (tt, refl)
  erase_first-Erases fd (x ∷ xs) = elim (Bool-cases (descriptor x ==ℤ fd)) [
    | inl hit ↦ inr ([], x, xs, refl, tt, (==ℤ_iff _ _).0 hit, rw hit)
    | inr miss ↦
        let other : descriptor x ≢ fd = λ e. cc (miss, (==ℤ_iff (descriptor x) fd).1 e) in
        elim (erase_first-Erases fd xs) [
          | inl (none_here, e) ↦ inl ((other, none_here), rw (miss, e))
          | inr (before, y, after, split, lacks, same, e) ↦
              inr (x ∷ before, y, after, ap (◌∷◌ x) split, (other, lacks), same, rw (miss, e))
        ]
  ]

  Lacks-contains :
      (fd : ℤ) (r : Ref) (xs : List Ref)
      → Lacks descriptor fd xs
      → contains r xs ≡ true
      → descriptor r ≢ fd
  Lacks-contains fd r [] h c = cc
  Lacks-contains fd r (x ∷ xs) h c = elim (Bool-cases (x == r)) [
    | inl same ↦ let e : x ≡ r = (==_iff x r).0 same in rw (← e) h.0
    | inr other ↦ Lacks-contains fd r xs h.1 (ground arith)
  ]

  without-absent : (r : Ref) (xs : List Ref) → contains r xs ≡ false → without r xs ≡ xs
  without-absent r [] c = refl
  without-absent r (x ∷ xs) c = ground (arith, without-absent r xs)

  absent_of_Lacks :
      (r : Ref) (xs : List Ref) → Lacks descriptor (descriptor r) xs → contains r xs ≡ false
  absent_of_Lacks r xs h = elim (Bool-cases (contains r xs)) [
    | inl c ↦ absurd (Lacks-contains (descriptor r) r xs h c refl)
    | inr c ↦ c
  ]

  erase_first-without :
      (r : Ref) (xs : List Ref)
      → Apart descriptor xs
      → contains r xs ≡ true
      → erase_first descriptor (descriptor r) xs ≡ (true, without r xs)
  unfolding erase_first
  erase_first-without r [] a c = cc
  erase_first-without r (x ∷ xs) a c = elim (Bool-cases (x == r)) [
    | inl same ↦
        let e : x ≡ r = (==_iff x r).0 same in
        let gone : without r xs ≡ xs = without-absent r xs (absent_of_Lacks r xs (rw e at a.0)) in
        rw (same, e, ==ℤ_refl (descriptor r)) (ap (λ (l : List Ref). (true, l)) (sym gone))
    | inr other ↦
        let deeper : contains r xs ≡ true = ground arith in
        let far : descriptor r ≢ descriptor x = Lacks-contains _ r xs a.0 deeper in
        elim (Bool-cases (descriptor x ==ℤ descriptor r)) [
          | inl hit ↦ absurd (far (sym ((==ℤ_iff _ _).0 hit)))
          | inr miss ↦ rw (miss, other, erase_first-without r xs a.1 deeper)
        ]
  ]

-- On a list that is not full, `delSocket` either finds no member with the descriptor of its
-- argument, returns false and leaves the list alone, or returns true and cuts out the first member
-- that has that descriptor, all others keeping their order.
pub del_socket-Erases :
    (descriptor : Ref → ℤ) (r : Ref) (l : SocketsList)
    → is_full l ≡ false
    → Erases descriptor
        (descriptor r)
        l.sockets
        ((del_socket descriptor r l).0, (del_socket descriptor r l).1.sockets)
unfolding del_socket
del_socket-Erases descriptor r l h = rw h (erase_first-Erases descriptor (descriptor r) l.sockets)

-- On a list that is not full and whose members have different descriptors, deleting a member
-- returns true and removes exactly that object, whatever its place in the list; the bound of the
-- list stays.
pub del_socket-without :
    (descriptor : Ref → ℤ) (r : Ref) (l : SocketsList)
    → is_full l ≡ false
    → Apart descriptor l.sockets
    → contains r l.sockets ≡ true
    → del_socket descriptor r l ≡ (true, record l { sockets = without r l.sockets })
unfolding del_socket
del_socket-without descriptor r l h a c = rw (h, erase_first-without descriptor r l.sockets a c)
