-- ===== src/Node/Round/Laws.antt =====
-- What holds of every run of a node's loop.
use unit_ai_specialists.Common.{
  ℕ, suc, ◌≤◌, Bool, true, false, ◌≡◌, refl, sym, ap, subst, List, [], ◌∷◌, arith,
}
use unit_ai_specialists.Node.States.{
  NodeState, can_transition, is_terminal_node_status, valid_state_transitions,
}
use unit_ai_specialists.Node.Round.{
  NodeEvent, node_state_changed, coordinator_restarted_event, Node, World, Options, status_of,
}
use unit_ai_specialists.Node.Round.Loop.{loop}
use unit_ai_specialists.Node.Round.Invariant.{Keeps, milestones}
use unit_ai_specialists.Node.Round.Invariant.Loop.{final, loop_inv}

-- The status of a node by its events, newest first: it is the one that the newest change of the
-- status leads to, each change is in the table of the contract and begins where the one before it
-- ended, and the oldest begins at this status.
abbrev pub Traced : NodeState → NodeState → List NodeEvent → Type 0
Traced origin s [] = s ≡ origin
Traced origin s (node_state_changed a b cause ∷ evs) =
    (s ≡ b) × (can_transition a b ≡ true) × Traced origin a evs
Traced origin s (_ ∷ evs) = Traced origin s evs

to_milestones :
    (origin s : NodeState) (evs : List NodeEvent)
    → Traced origin s evs
    → Traced origin s (milestones evs)
to_milestones origin s [] h = h
to_milestones origin s (node_state_changed a b cause ∷ evs) h =
    (h.0, h.1, to_milestones origin a evs h.2)
to_milestones origin s (coordinator_restarted_event reason old new ∷ evs) h =
    to_milestones origin s evs h
to_milestones origin s (_ ∷ evs) h = to_milestones origin s evs h

of_milestones :
    (origin s : NodeState) (evs : List NodeEvent)
    → Traced origin s (milestones evs)
    → Traced origin s evs
of_milestones origin s [] h = h
of_milestones origin s (node_state_changed a b cause ∷ evs) h =
    (h.0, h.1, of_milestones origin a evs h.2)
of_milestones origin s (coordinator_restarted_event reason old new ∷ evs) h =
    of_milestones origin s evs h
of_milestones origin s (_ ∷ evs) h = of_milestones origin s evs h

Traced-Keeps : (origin : NodeState) → Keeps (λ t _ evs. Traced origin t evs)
Traced-Keeps origin = record {
  moves = λ t u c evs cause can p. (refl, can, p);
  restarts = λ t c evs reason old new few p. p;
  fails = λ t c evs few p. p;
}

-- However many rounds the loop runs and whatever they see, also when a round throws: the status
-- changes only with an event, each change is one that the table of the contract allows from the
-- status that the one before it left, and the events lead to the status at the end. So it is for the
-- events that the run starts with, and so it stays.
pub loop_follows :
    (o : Options) (ws : List World) (n : Node) (origin : NodeState)
    → Traced origin (status_of n) n.events
    → Traced origin (status_of (final (loop o ws n))) (final (loop o ws n)).events
loop_follows o ws n origin h =
    let e = final (loop o ws n) in
    of_milestones origin (status_of e) e.events (
      loop_inv (λ t _ evs. Traced origin t evs) (Traced-Keeps origin) o ws n
        (to_milestones origin (status_of n) n.events h))

-- How often the events say that the coordinator was started again.
abbrev pub restarts_in : List NodeEvent → ℕ
restarts_in [] = 0
restarts_in (coordinator_restarted_event reason old new ∷ evs) = suc (restarts_in evs)
restarts_in (_ ∷ evs) = restarts_in evs

restarts_in-milestones : (evs : List NodeEvent) → restarts_in (milestones evs) ≡ restarts_in evs
restarts_in-milestones [] = refl
restarts_in-milestones (node_state_changed a b cause ∷ evs) = restarts_in-milestones evs
restarts_in-milestones (coordinator_restarted_event reason old new ∷ evs) =
    ap suc (restarts_in-milestones evs)
restarts_in-milestones (_ ∷ evs) = restarts_in-milestones evs

-- The counter covers the restarts, and it is at most one.
abbrev Counted : ℕ → List NodeEvent → Type 0
Counted c evs = (restarts_in evs ≤ c) × (c ≤ 1)

restarts_Keeps : Keeps (λ _ c evs. Counted c evs)
restarts_Keeps = record {
  moves = λ _ _ _ _ _ _ h. h;
  restarts = λ _ c evs _ _ _ few h. (omega (arith, h.0), omega arith);
  fails = λ _ c evs few h. (omega (arith, h.0), omega arith);
}

-- No run of the loop starts the coordinator again more than once, and the events show it: a restart
-- that succeeds is an event. This counts the restarts before the run, which the counter covers.
pub restarts_bounded :
    (o : Options) (ws : List World) (n : Node)
    → restarts_in n.events ≤ n.coordinator_restart_count
    → n.coordinator_restart_count ≤ 1
    → (restarts_in (final (loop o ws n)).events ≤ 1)
      × ((final (loop o ws n)).coordinator_restart_count ≤ 1)
restarts_bounded o ws n covered h =
    let e = final (loop o ws n) in
    let k : Counted e.coordinator_restart_count (milestones e.events) =
      loop_inv (λ _ c evs. Counted c evs) restarts_Keeps o ws n
        (
          subst (λ k. k ≤ n.coordinator_restart_count) (sym (restarts_in-milestones n.events))
              covered,
          h,
        ) in
    (subst (λ k. k ≤ 1) (restarts_in-milestones e.events) (omega (arith, k.0, k.1)), k.1)

abbrev pub is_started : NodeState → Bool
is_started NodeState.created = false
is_started _ = true

-- No transition leads back to `created`.
not_back : (s t : NodeState) → can_transition s t ≡ true → is_started t ≡ true
unfolding can_transition valid_state_transitions
not_back NodeState.created NodeState.created can = absurd (cc can)
not_back NodeState.starting NodeState.created can = absurd (cc can)
not_back _ NodeState.created can = absurd (cc can)
not_back _ NodeState.starting can = refl
not_back _ _ can = refl

pub started_Keeps : Keeps (λ s _ _. is_started s ≡ true)
started_Keeps = record {
  moves = λ s t c evs cause can _. not_back s t can;
  restarts = λ _ _ _ _ _ _ _ h. h;
  fails = λ _ _ _ _ h. h;
}

-- An error can be recorded at every status that a run goes on at.
pub error_allowed :
    (s : NodeState)
    → is_started s ≡ true
    → is_terminal_node_status s ≡ false
    → can_transition s NodeState.error ≡ true
unfolding can_transition valid_state_transitions is_terminal_node_status
error_allowed NodeState.created h t = h
error_allowed NodeState.starting h t = refl
error_allowed NodeState.running h t = refl
error_allowed _ h t = ground arith
