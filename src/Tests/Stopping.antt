-- ===== src/Tests/Stopping.antt =====
-- Goroutines that cannot end after the context is cancelled.
use corerad.Common.{◌+◌, ◌≤◌, ◌≡◌, ◌↔◌, ◌⊎◌, inl, inr, true, false, arith}
use corerad.Advertiser.Goroutines.{capacity}
use corerad.Advertiser.Goroutines.Stopping.{Stopping, CanEnd, at, begun, sending, can_end_lem}

-- schedule returned while 15 addresses were in the channel, and two sends have begun.
abbrev jammed : Stopping
jammed = at sending sending false 15

can_end_lem_example :
    CanEnd jammed ↔ ((jammed.is_scheduling ≡ true) ⊎ (begun jammed + jammed.queued ≤ capacity))
can_end_lem_example = can_end_lem jammed (omega arith)

never_ends : CanEnd jammed → ⊥
never_ends c = elim ((can_end_lem jammed (omega arith)).0 c) [
  | inl b ↦ cc
  | inr h ↦ absurd (omega (arith, h))
]

-- One address less, and both fit.
ends_with_room : CanEnd (at sending sending false 14)
ends_with_room = (can_end_lem (at sending sending false 14) (omega arith)).1 (inr (omega arith))
