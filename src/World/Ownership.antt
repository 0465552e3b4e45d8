-- ===== src/World/Ownership.antt =====
-- Which objects answer for the descriptors that are open.
pub mod Steps
pub mod Others
use socket_dispatcher.Prelude.{
  ◌-◌, ◌<◌, ◌≡◌, refl, sym, ap, ◌∙◌, ◌⊎◌, inl, inr, Bool, true, false, ◌∷◌, ◌==◌, ==_iff,
  Bool-cases, ℤ,
}
use socket_dispatcher.Socket.{Socket}
use socket_dispatcher.World.{Ref, Call, Trace, Os, World, call, modify, descriptor_of}
use socket_dispatcher.World.Ledger.{effect_of, quiet, open_descriptors, has, Unique, IsTidy}
use socket_dispatcher.World.Quiet.{IsMinor, Quiet}

pub modify-field {ℓ} :
    {A : Type ℓ} (g : Socket → A) (f : Socket → Socket) (r q : Ref) (w : World)
    → ((s : Socket) → g (f s) ≡ g s)
    → g ((modify r f w).cell q) ≡ g (w.cell q)
modify-field g f r q w h = elim (Bool-cases (r == q)) [
  | inl same ↦
      let e : r ≡ q = (==_iff r q).0 same in
      rw same (h (w.cell r) ∙ ap (λ (x : Ref). g (w.cell x)) e)
  | inr other ↦ rw other refl
]

-- Descriptors for which nothing answers any more, by the calls made so far.
pub record Loss : Type 1 where
  pub lost : Trace → ℤ → Type 0
  pub grows : (c : Call) (t : Trace) (fd : ℤ) → lost t fd → lost (c ∷ t) fd

module _ (os : Os) where
  abbrev pub is_open : World → ℤ → Bool
  is_open w = has (open_descriptors os w.trace)

  -- The objects of `live` have open descriptors of their own, which they will close; every other
  -- open descriptor is lost. No call has closed what was not open.
  pub record Owns (live : Ref → Bool) (Lost : Loss) (w : World) : Type 0 where
    pub older : (r : Ref) → live r ≡ true → r < w.next
    pub closing_own : (r : Ref) → live r ≡ true → (w.cell r).protect_descriptor ≡ false
    pub opened : (r : Ref) → live r ≡ true → is_open w (descriptor_of w r) ≡ true
    pub apart :
        (r q : Ref) → live r ≡ true → live q ≡ true → descriptor_of w r ≡ descriptor_of w q → r ≡ q
    pub accounted :
        (fd : ℤ)
        → is_open w fd ≡ true
        → ((r : Ref) × (live r ≡ true) × (descriptor_of w r ≡ fd)) ⊎ Lost.lost w.trace fd
    pub unique : Unique (open_descriptors os w.trace)
    pub tidy : IsTidy os w.trace

  module _ (live : Ref → Bool) (Lost : Loss) where
    modify-Owns :
        (f : Socket → Socket) (r : Ref) (w : World)
        → IsMinor f
        → Owns live Lost w
        → Owns live Lost (modify r f w)
    modify-Owns f r w m h =
        let same_fd : (q : Ref) → descriptor_of (modify r f w) q ≡ descriptor_of w q =
          λ q. modify-field (λ (s : Socket). s.descriptor) f r q w (λ s. (m s).2) in
        let same_p : (q : Ref)
            → ((modify r f w).cell q).protect_descriptor ≡ (w.cell q).protect_descriptor =
          λ q. modify-field (λ (s : Socket). s.protect_descriptor) f r q w (λ s. (m s).3) in
        record {
          older = h.older;
          closing_own = λ q l. same_p q ∙ h.closing_own q l;
          opened = λ q l. rw (same_fd q) (h.opened q l);
          apart = λ q p l k e. h.apart q p l k (sym (same_fd q) ∙ e ∙ same_fd p);
          accounted = λ fd o. elim (h.accounted fd o) [
            | inl (q, l, e) ↦ inl (q, l, same_fd q ∙ e)
            | inr lost ↦ inr lost
          ];
          unique = h.unique;
          tidy = h.tidy;
        }

    -- A call that leaves the same descriptors open.
    pub unchanged-Owns :
        (c : Call) (w : World)
        → open_descriptors os (c ∷ w.trace) ≡ open_descriptors os w.trace
        → IsTidy os (c ∷ w.trace)
        → Owns live Lost w
        → Owns live Lost (call c w)
    unchanged-Owns c w e tidy h = record {
      older = h.older;
      closing_own = h.closing_own;
      opened = λ q l. rw e (h.opened q l);
      apart = h.apart;
      accounted = λ fd o. elim (h.accounted fd (rw e at o)) [
        | inl x ↦ inl x
        | inr lost ↦ inr (Lost.grows c w.trace fd lost)
      ];
      unique = rw e h.unique;
      tidy = tidy;
    }

    call-Owns :
        (c : Call) (w : World) → effect_of c ≡ quiet → Owns live Lost w → Owns live Lost (call c w)
    call-Owns c w e h = unchanged-Owns c w (rw e refl) (rw e (tt, h.tidy)) h

    buffers-Owns :
        (b : Bool) (w : World) → Owns live Lost w → Owns live Lost (record w { control_buffer = b })
    buffers-Owns b w h = record {
      older = h.older;
      closing_own = h.closing_own;
      opened = h.opened;
      apart = h.apart;
      accounted = h.accounted;
      unique = h.unique;
      tidy = h.tidy;
    }

    pub Owns-Quiet : Quiet (Owns live Lost)
    Owns-Quiet = record { calls = call-Owns; changes = modify-Owns; buffers = buffers-Owns }
