-- ===== src/Poller/Fill.antt =====
-- The first loop of `pollSockets`: the question to the system, and the reset of the masks.
use mathlib.Core.Path.{ap₂}
use socket_dispatcher.Prelude.{
  ℕ, suc, ◌≡◌, refl, ap, ◌∙◌, inl, inr, true, false, List, [], ◌∷◌, arith, ◌==◌, if◌then◌else◌,
  ==_iff, ==_refl, Bool-cases, All,
}
use socket_dispatcher.Socket.{PollMask, Socket, no_events, set_revents}
use socket_dispatcher.World.{Ref, World, modify}
use socket_dispatcher.SocketsList.Delete.{contains, Distinct}
use socket_dispatcher.Poller.{fill_poll_info, reset_masks}
use socket_dispatcher.Poller.Masks.{entries_of, Stored, reset, Cleared}

module _ (r : Ref) (w : World) where
  pub reset_masks-cell :
      (q : Ref) → (reset_masks r w).cell q ≡ (if r == q then reset (w.cell q) else w.cell q)
  reset_masks-cell q = elim (Bool-cases (r == q)) [
    | inl same ↦ let e : r ≡ q = (==_iff r q).0 same in rw (same, ← e, ==_refl r)
    | inr other ↦ rw other
  ]

  pub store-cell :
      (m : PollMask) (q : Ref)
      → (modify r (set_revents m) w).cell q
        ≡ (if r == q then set_revents m (w.cell q) else w.cell q)
  store-cell m q = elim (Bool-cases (r == q)) [
    | inl same ↦ let e : r ≡ q = (==_iff r q).0 same in rw (same, ← e)
    | inr other ↦ rw other
  ]

pub fill_poll_info-cell :
    (rs : List Ref) (w : World) (q : Ref)
    → (fill_poll_info rs w).1.cell q ≡ (if contains q rs then reset (w.cell q) else w.cell q)
unfolding fill_poll_info
fill_poll_info-cell [] w q = refl
fill_poll_info-cell (r ∷ rs) w q =
    rw (fill_poll_info-cell rs (reset_masks r w) q, reset_masks-cell r w q)
      (elim (Bool-cases (r == q)) [ inl same ↦ rw same (ground arith) | inr other ↦ rw other ])

pub fill_poll_info-frame :
    (rs : List Ref) (w : World)
    → ((fill_poll_info rs w).1.next ≡ w.next) × ((fill_poll_info rs w).1.trace ≡ w.trace)
unfolding fill_poll_info
fill_poll_info-frame [] w = (refl, refl)
fill_poll_info-frame (r ∷ rs) w = fill_poll_info-frame rs (reset_masks r w)

-- A change elsewhere does not change the entries.
pub entries_of-reset_masks :
    (r : Ref) (rs : List Ref) (w : World)
    → contains r rs ≡ false
    → entries_of (reset_masks r w) rs ≡ entries_of w rs
entries_of-reset_masks r [] w h = refl
entries_of-reset_masks r (x ∷ xs) w h =
    let other : (r == x) ≡ false = ground arith in
    ap₂ ◌∷◌ (rw other) (entries_of-reset_masks r xs w (ground arith))

pub fill_poll_info-entries :
    (rs : List Ref) (w : World) → Distinct rs → (fill_poll_info rs w).0 ≡ entries_of w rs
unfolding fill_poll_info
fill_poll_info-entries [] w d = refl
fill_poll_info-entries (r ∷ rs) w d =
    rw (fill_poll_info-entries rs (reset_masks r w) d.1) (rw (entries_of-reset_masks r rs w d.0))

pub All-members :
    {P : Ref → Type 0} (rs : List Ref) → ((q : Ref) → contains q rs ≡ true → P q) → All P rs
All-members [] h = tt
All-members (x ∷ xs) h = (h x (rw (==_refl x)), All-members xs (λ q c. h q (ground arith)))

pub fill_poll_info-reset :
    (rs : List Ref) (w : World) → All (λ r. (fill_poll_info rs w).1.cell r ≡ reset (w.cell r)) rs
fill_poll_info-reset rs w = All-members rs λ q c. fill_poll_info-cell rs w q ∙ rw c

pub Stored-reset :
    (i : ℕ) (rs : List Ref) (w w₁ : World)
    → All (λ r. w₁.cell r ≡ reset (w.cell r)) rs
    → Stored (λ _. no_events) i rs w w₁
Stored-reset i [] w w₁ h = tt
Stored-reset i (r ∷ rs) w w₁ h = (h.0, Stored-reset (suc i) rs w w₁ h.1)

pub Cleared-reset :
    (rs : List Ref) (w w₁ : World) → All (λ r. w₁.cell r ≡ reset (w.cell r)) rs → Cleared rs w₁
Cleared-reset [] w w₁ h = tt
Cleared-reset (r ∷ rs) w w₁ h = (ap (λ (s : Socket). s.revents) h.0, Cleared-reset rs w w₁ h.1)
