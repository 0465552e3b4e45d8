-- ===== src/SocketsList/Members.antt =====
-- The descriptors in a list, as sockets are put and erased.
use socket_dispatcher.Prelude.{
  ℕ, suc, ◌-◌, ◌≤◌, ◌≡◌, refl, sym, ◌∙◌, ◌≢◌, inl, inr, Bool, true, false, not, ◌&&◌, ◌||◌, List,
  [], ◌∷◌, ◌++◌, arith, if◌then◌else◌, Bool-cases, length, All-append, ℤ, ◌==ℤ◌, ==ℤ_iff,
}
use socket_dispatcher.World.{Ref}
use socket_dispatcher.SocketsList.{erase_first}
use socket_dispatcher.SocketsList.Delete.{Lacks, Apart}
use socket_dispatcher.SocketsList.Registry.{listed}

module _ (descriptor : Ref → ℤ) where
  pub listed-append :
      (xs : List Ref) (r : Ref) (k : ℤ)
      → listed descriptor (xs ++ r ∷ []) k ≡ ((descriptor r ==ℤ k) || listed descriptor xs k)
  listed-append [] r k = ground arith
  listed-append (x ∷ xs) r k = ground (arith, listed-append xs r k)

  Lacks-listed : (fd : ℤ) (xs : List Ref) → listed descriptor xs fd ≡ false → Lacks descriptor fd xs
  Lacks-listed fd [] h = tt
  Lacks-listed fd (x ∷ xs) h = (
    (λ e. let hit = (==ℤ_iff (descriptor x) fd).1 e in ground arith),
    Lacks-listed fd xs (ground arith),
  )

  listed-Lacks : (fd : ℤ) (xs : List Ref) → Lacks descriptor fd xs → listed descriptor xs fd ≡ false
  listed-Lacks fd [] h = refl
  listed-Lacks fd (x ∷ xs) h = elim (Bool-cases (descriptor x ==ℤ fd)) [
    | inl hit ↦ absurd (h.0 ((==ℤ_iff (descriptor x) fd).0 hit))
    | inr miss ↦ rw miss (listed-Lacks fd xs h.1)
  ]

  Lacks-append :
      (fd : ℤ) (xs : List Ref) (r : Ref)
      → Lacks descriptor fd xs
      → descriptor r ≢ fd
      → Lacks descriptor fd (xs ++ r ∷ [])
  Lacks-append fd xs r h n = All-append (λ x. descriptor x ≢ fd) xs (r ∷ []) h (n, tt)

  pub Apart-append :
      (xs : List Ref) (r : Ref)
      → Apart descriptor xs
      → listed descriptor xs (descriptor r) ≡ false
      → Apart descriptor (xs ++ r ∷ [])
  Apart-append [] r a h = (tt, tt)
  Apart-append (x ∷ xs) r a h =
      let other = Lacks-listed (descriptor r) (x ∷ xs) h in
      (
        Lacks-append (descriptor x) xs r a.0 (λ e. other.0 (sym e)),
        Apart-append xs r a.1 (listed-Lacks (descriptor r) xs other.1),
      )

  -- What erasing a descriptor leaves of a list whose descriptors differ.
  abbrev pub Erased : ℤ → List Ref → Bool × List Ref → Type 0
  Erased fd xs result =
      (result.0 ≡ listed descriptor xs fd)
      × (length result.1 ≡ (if listed descriptor xs fd then length xs - 1 else length xs))
      × ((k : ℤ) → listed descriptor result.1 k ≡ (not (fd ==ℤ k) && listed descriptor xs k))
      × ((k : ℤ) → Lacks descriptor k xs → Lacks descriptor k result.1)
      × Apart descriptor result.1

  erase_first-hit :
      (fd : ℤ) (x : Ref) (xs : List Ref)
      → Apart descriptor (x ∷ xs)
      → (descriptor x ==ℤ fd) ≡ true
      → (k : ℤ) → listed descriptor xs k ≡ (not (fd ==ℤ k) && listed descriptor (x ∷ xs) k)
  erase_first-hit fd x xs a hit k =
      let e : descriptor x ≡ fd = (==ℤ_iff (descriptor x) fd).0 hit in
      elim (Bool-cases (fd ==ℤ k)) [
        | inl here ↦
            let f : descriptor x ≡ k = e ∙ (==ℤ_iff fd k).0 here in
            rw here (rw (← f) (listed-Lacks (descriptor x) xs a.0))
        | inr there ↦ rw (there, e, there) refl
      ]

  erase_first-miss :
      (fd : ℤ) (x : Ref) (xs rest : List Ref)
      → (descriptor x ==ℤ fd) ≡ false
      → ((k : ℤ) → listed descriptor rest k ≡ (not (fd ==ℤ k) && listed descriptor xs k))
      → (k : ℤ) → listed descriptor (x ∷ rest) k ≡ (not (fd ==ℤ k) && listed descriptor (x ∷ xs) k)
  erase_first-miss fd x xs rest miss ih k = elim (Bool-cases (fd ==ℤ k)) [
    | inl here ↦ let f : fd ≡ k = (==ℤ_iff fd k).0 here in rw (ih k, here) (rw (← f, miss) refl)
    | inr there ↦ rw (ih k, there) refl
  ]

  length-erase :
      (b : Bool) (m : ℕ) (x : Ref) (xs : List Ref)
      → m ≡ (if b then length xs - 1 else length xs)
      → (b ≡ true → 1 ≤ length xs)
      → suc m ≡ (if b then length (x ∷ xs) - 1 else length (x ∷ xs))
  length-erase true m x xs e h = let k = h refl in omega arith
  length-erase false m x xs e h = omega arith

  pub unlisted :
      (fd : ℤ) (xs : List Ref) (k : ℤ)
      → listed descriptor xs fd ≡ false
      → (not (fd ==ℤ k) && listed descriptor xs k) ≡ listed descriptor xs k
  unlisted fd xs k h = elim (Bool-cases (fd ==ℤ k)) [
    | inl here ↦ let f : fd ≡ k = (==ℤ_iff fd k).0 here in rw here (rw (← f, h) refl)
    | inr there ↦ rw there refl
  ]

  listed-length : (xs : List Ref) (fd : ℤ) → listed descriptor xs fd ≡ true → 1 ≤ length xs
  listed-length [] fd h = cc
  listed-length (x ∷ xs) fd h = omega arith

  pub erase_first-Erased :
      (fd : ℤ) (xs : List Ref) → Apart descriptor xs → Erased fd xs (erase_first descriptor fd xs)
  unfolding erase_first
  erase_first-Erased fd [] a = (refl, refl, (λ k. ground arith), (λ k h. h), tt)
  erase_first-Erased fd (x ∷ xs) a =
      let rest = erase_first descriptor fd xs in
      elim (Bool-cases (descriptor x ==ℤ fd)) [
        | inl hit ↦
            let f = erase_first-hit fd x xs a hit in
            rw hit (refl, omega arith, f, (λ k h. h.1), a.1)
        | inr miss ↦
            let (same, long, fewer, lacks, apart) = erase_first-Erased fd xs a.1 in
            let g = erase_first-miss fd x xs rest.1 miss fewer in
            rw miss (
              same,
              length-erase (listed descriptor xs fd) (length rest.1) x xs long
                  (listed-length xs fd),
              g,
              (λ k h. (h.0, lacks k h.1)),
              (lacks (descriptor x) a.0, apart),
            )
      ]
