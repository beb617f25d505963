-- ===== src/Switch/Gates.antt =====
-- One call of `evaluate` of layout.rs: which gates a switch has passed.
use geser_desk.Prelude.{
  ℕ, ◌-◌, ◌≤◌, ◌<◌, Bool, true, false, Option, none, some, ltb, arith, ◌≡◌, ◌↔◌, ◌⊎◌, inl, inr,
  Bool-cases, ltb→lt,
}
use geser_desk.Edge.{Edge, edge_eq}
use geser_desk.Switch.{
  dwell_gate, second_gate, first_gate, recent_tap, SwitchPolicy, SwitchState, switch, evaluate,
}

-- Nothing forbids the switch: a machine lies there, the corner rule is met, no lock is on that counts.
abbrev pub IsOpen : SwitchState → SwitchPolicy → Bool → Bool → Type 0
IsOpen s policy has_neighbor in_corner =
    (has_neighbor ≡ true)
    × (in_corner ≡ true)
    × ((s.locked ≡ false) ⊎ (policy.scroll_lock_locks ≡ false))

-- The sample is of this edge, and its age is as said.
abbrev pub Sampled : Option (Edge × ℕ) → Edge → (ℕ → Type 0) → Type 0
Sampled none edge old_enough = ⊥
Sampled (some (e, t)) edge old_enough = (e ≡ edge) × old_enough t

-- The first tap of the double tap, if one is wanted.
abbrev pub Tapped : SwitchState → SwitchPolicy → ℕ → Edge → Type 0
Tapped s policy now edge =
    0 < policy.double_tap_ms → Sampled s.last_tap edge (λ t. now - t ≤ policy.double_tap_ms)

-- The rest against the edge, if one is wanted.
abbrev pub Rested : SwitchState → SwitchPolicy → ℕ → Edge → Type 0
Rested s policy now edge =
    0 < policy.delay_ms → Sampled s.dwell edge (λ t. policy.delay_ms ≤ now - t)

edge_eq_iff : (a b : Edge) → ((edge_eq a b ≡ true) → a ≡ b) × (a ≡ b → edge_eq a b ≡ true)
edge_eq_iff a b = (λ h. ground arith, λ h. ground arith)

recent_tap_iff :
    (o : Option (Edge × ℕ)) (edge : Edge) (now within : ℕ)
    → (recent_tap o edge now within ≡ true) ↔ Sampled o edge (λ t. now - t ≤ within)
recent_tap_iff none edge now within = (λ h. cc, λ h. absurd h)
recent_tap_iff (some (e, t)) edge now within = (
  λ h. (ground (arith, edge_eq_iff e edge), ground arith),
  λ h. ground (arith, edge_eq_iff e edge),
)

dwell_gate_iff :
    (s : SwitchState) (o : Option (Edge × ℕ)) (delay now : ℕ) (edge : Edge)
    → ((dwell_gate s o delay now edge).1 ≡ switch) ↔ Sampled o edge (λ t. delay ≤ now - t)
unfolding dwell_gate
dwell_gate_iff s none delay now edge = (λ h. cc, λ h. absurd h)
dwell_gate_iff s (some (e, t)) delay now edge = (
  λ h. (ground (arith, edge_eq_iff e edge), ground (arith, edge_eq_iff e edge)),
  λ h. ground (arith, edge_eq_iff e edge),
)

second_gate_iff :
    (policy : SwitchPolicy) (s : SwitchState) (now : ℕ) (edge : Edge)
    → ((second_gate policy s now edge).1 ≡ switch) ↔ Rested s policy now edge
unfolding second_gate
second_gate_iff policy s now edge = (
  λ h d. (dwell_gate_iff s s.dwell policy.delay_ms now edge).0 (ground arith),
  λ h. elim (Bool-cases (ltb 0 policy.delay_ms)) [
    | inl t ↦ rw t ((dwell_gate_iff s s.dwell policy.delay_ms now edge).1 (h (ltb→lt _ _ t)))
    | inr f ↦ rw f
  ],
)

first_gate_iff :
    (policy : SwitchPolicy) (s : SwitchState) (now : ℕ) (edge : Edge)
    → ((first_gate policy s now edge).1 ≡ switch)
      ↔ Tapped s policy now edge × Rested s policy now edge
unfolding first_gate
first_gate_iff policy s now edge =
    let tapped : SwitchState = record s { last_tap = some (edge, now) } in
    let recent = recent_tap_iff s.last_tap edge now policy.double_tap_ms in
    elim (Bool-cases (ltb 0 policy.double_tap_ms)) [
      | inr f ↦ rw f (
        λ h. (λ d. absurd (ground (arith, d, f)), (second_gate_iff policy s now edge).0 h),
        λ h. (second_gate_iff policy s now edge).1 h.1,
      )
      | inl t ↦ elim (Bool-cases (recent_tap s.last_tap edge now policy.double_tap_ms)) [
        | inr f ↦ rw (t, f) (λ h. cc, λ h. cc (recent.1 (h.0 (ltb→lt _ _ t))))
        | inl r ↦
            rw (t, r)
              (
                λ h. (λ d. recent.0 r, (second_gate_iff policy tapped now edge).0 h),
                λ h. (second_gate_iff policy tapped now edge).1 h.1,
              )
      ]
    ]

-- `evaluate` decides for a switch exactly when a machine lies across the edge, the corner rule is met, the screen is
-- not locked or `scroll_lock_locks` is off, the last tap was on this edge at most `double_tap_ms` ago if a double
-- tap is wanted, and the rest against this edge has lasted `delay_ms` at least if a delay is wanted.
pub evaluate_switch :
    (s : SwitchState) (policy : SwitchPolicy) (now : ℕ) (edge : Edge) (n c : Bool)
    → ((evaluate s policy now edge n c).1 ≡ switch)
      ↔ IsOpen s policy n c × Tapped s policy now edge × Rested s policy now edge
unfolding evaluate
evaluate_switch s policy now edge n c = (
  λ h.
      let first = (first_gate_iff policy s now edge).0 (ground arith) in
      ((ground arith, ground arith, ground arith), first.0, first.1),
  λ h. let first = (first_gate_iff policy s now edge).1 (h.1, h.2) in ground arith,
)
