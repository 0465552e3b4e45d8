-- ===== src/World/Ledger.antt =====
-- The descriptors that a process has opened by `socket` and `accept`, or received, and not closed
-- since, worked out from its calls and their answers.
use socket_dispatcher.Prelude.{
  ◌≡◌, refl, ◌∙◌, inl, inr, Bool, true, false, ◌||◌, Option, none, some, List, [], ◌∷◌, arith,
  if◌then◌else◌, Bool-cases, ℤ, pos, ◌==ℤ◌, is_negative, minus_one, magnitude, ==ℤ_iff, ==ℤ_refl,
  ==ℤ_sym,
}
use socket_dispatcher.World.{
  MessageResult, Os, Domain, Call, Trace, Result, ok, halt, open_socket, accept, recvmsg, close,
}
use socket_dispatcher.Passing.{scan}

-- What a call is about: a new descriptor, the end of one, or neither. A message may bring one.
pub data Effect : Type 0 where
  opening : Domain → Effect
  accepting receiving closing : ℤ → Effect
  quiet : Effect

abbrev pub effect_of : Call → Effect
effect_of (open_socket d) = opening d
effect_of (accept fd) = accepting fd
effect_of (recvmsg fd) = receiving fd
effect_of (close fd) = closing fd
effect_of _ = quiet

-- The descriptor that a message announces by a status 0; a negative number if it announces none.
abbrev pub announced : Result (Option ℤ) → ℤ
announced (ok (some fd)) = fd
announced (ok none) = minus_one
announced (halt h) = minus_one

abbrev pub brought : MessageResult → ℤ
brought m =
    if is_negative m.ret
    then minus_one
    else if m.ret ==ℤ pos 0
    then minus_one
    else announced (scan m.control 0 (magnitude m.ret) m.buffer none)

-- A descriptor that a call has returned.
abbrev pub enter : ℤ → List ℤ → List ℤ
enter fd l = if is_negative fd then l else fd ∷ l

abbrev pub take_out : ℤ → List ℤ → List ℤ
take_out fd [] = []
take_out fd (x ∷ l) = let rest = take_out fd l in if x ==ℤ fd then l else x ∷ rest

abbrev pub after_effect : Os → Effect → Trace → List ℤ → List ℤ
after_effect os (opening d) t l = enter (os.opened t d) l
after_effect os (accepting fd) t l = enter (os.accepted t fd) l
after_effect os (receiving fd) t l = enter (brought (os.message_received t fd)) l
after_effect os (closing fd) t l = take_out fd l
after_effect os quiet t l = l

-- The newest first.
abbrev pub open_descriptors : Os → Trace → List ℤ
open_descriptors os [] = []
open_descriptors os (c ∷ t) = after_effect os (effect_of c) t (open_descriptors os t)

-- What is opened and then closed leaves nothing behind.
pub take_out-enter : (fd : ℤ) (l : List ℤ) → is_negative fd ≡ false → take_out fd (enter fd l) ≡ l
take_out-enter fd l h = rw (h, ==ℤ_refl fd)

abbrev pub has : List ℤ → ℤ → Bool
has [] k = false
has (x ∷ l) k = (x ==ℤ k) || has l k

-- No descriptor stands in the list twice.
abbrev pub Unique : List ℤ → Type 0
Unique [] = Unit
Unique (x ∷ l) = (has l x ≡ false) × Unique l

-- Each `close` is of a descriptor that is open then.
abbrev pub Allows : Os → Effect → Trace → Type 0
Allows os (closing fd) t = has (open_descriptors os t) fd ≡ true
Allows os (opening d) t = Unit
Allows os (accepting fd) t = Unit
Allows os (receiving fd) t = Unit
Allows os quiet t = Unit

abbrev pub IsTidy : Os → Trace → Type 0
IsTidy os [] = Unit
IsTidy os (c ∷ t) = Allows os (effect_of c) t × IsTidy os t

-- The system hands out only descriptors that are not open.
pub record IsFresh (os : Os) : Type 0 where
  pub opened : (t : Trace) (d : Domain) → has (open_descriptors os t) (os.opened t d) ≡ false
  pub accepted : (t : Trace) (fd : ℤ) → has (open_descriptors os t) (os.accepted t fd) ≡ false

-- The same of the descriptors that messages announce.
abbrev pub BringsNew : Os → Type 0
BringsNew os =
    (t : Trace) (fd : ℤ) → has (open_descriptors os t) (brought (os.message_received t fd)) ≡ false

pub has-take_out : (fd k : ℤ) (l : List ℤ) → (fd ==ℤ k) ≡ false → has (take_out fd l) k ≡ has l k
has-take_out fd k [] h = refl
has-take_out fd k (x ∷ l) h = elim (Bool-cases (x ==ℤ fd)) [
  | inl hit ↦ let e : x ≡ fd = (==ℤ_iff x fd).0 hit in rw hit (rw (e, h) refl)
  | inr miss ↦ rw (miss, has-take_out fd k l h) refl
]

pub has_taken : (fd k : ℤ) (l : List ℤ) → has (take_out fd l) k ≡ true → has l k ≡ true
has_taken fd k [] h = h
has_taken fd k (x ∷ l) h = elim (Bool-cases (x ==ℤ fd)) [
  | inl hit ↦ let r = rw hit at h in ground arith
  | inr miss ↦ let r = rw miss at h in let ih = has_taken fd k l in ground arith
]

pub Unique-take_out : (fd : ℤ) (l : List ℤ) → Unique l → Unique (take_out fd l)
Unique-take_out fd [] u = tt
Unique-take_out fd (x ∷ l) u = elim (Bool-cases (x ==ℤ fd)) [
  | inl hit ↦ rw hit u.1
  | inr miss ↦
      let other : (fd ==ℤ x) ≡ false = ==ℤ_sym fd x ∙ miss in
      rw miss (has-take_out fd x l other ∙ u.0, Unique-take_out fd l u.1)
]

pub has_gone : (fd : ℤ) (l : List ℤ) → Unique l → has (take_out fd l) fd ≡ false
has_gone fd [] u = refl
has_gone fd (x ∷ l) u = elim (Bool-cases (x ==ℤ fd)) [
  | inl hit ↦ let e : x ≡ fd = (==ℤ_iff x fd).0 hit in rw hit (rw (← e) u.0)
  | inr miss ↦ rw (miss, has_gone fd l u.1, miss) refl
]
