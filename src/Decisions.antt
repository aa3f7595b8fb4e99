-- ===== src/Decisions.antt =====
-- `ConnectionDecisionManager::get_decision` of service/src/connection_decision/manager.rs. The time of
-- an RFC 3339 text in seconds is a parameter.
use ceasefire.Prelude.{
  ℕ, ◌+◌, ◌*◌, Bool, true, ◌&&◌, List, [], ◌∷◌, Option, none, some, ltb, ◌==◌, if◌then◌else◌, same,
  list_eq, nat_eq, option_eq,
}
use ceasefire.Prelude.State.{Action, pure, ◌>>=◌}
use ceasefire.Text.{Text}
use ceasefire.Models.{ConnectionDecision, ConnectionInfo}

pub record DecisionTable (W : Type 0) : Type 0 where
  pub find_connection_decisions : Text → ℕ → Option Text → Action W (List ConnectionDecision)

unfoldable pub matches_connection : ConnectionDecision → ConnectionInfo → Bool
matches_connection d c =
    (elim d.process_name [ none ↦ true | some name ↦ same c.process_name (some name) ])
    && same c.remote_addr d.remote_addr
    && c.remote_port == d.remote_port

module _ (parse_time : Text → Option ℕ) where
  stamped : Option Text → Option ℕ
  stamped none = none
  stamped (some s) = parse_time s

  -- More than a day old, or without a time.
  unfoldable pub is_expired : ℕ → ConnectionDecision → Bool
  unfolding stamped
  is_expired now d = elim (stamped d.created_at) [
    | none ↦ true
    | some created ↦ ltb (created + 24 * 60 * 60) now
  ]

  first_match : ℕ → ConnectionInfo → List ConnectionDecision → Option ConnectionDecision
  unfolding is_expired
  first_match now c [] = none
  first_match now c (d ∷ ds) =
      let rest = first_match now c ds in
      if is_expired now d then rest else if matches_connection d c then some d else rest

  unfoldable pub get_decision :
      {W : Type 0} → DecisionTable W → ℕ → ConnectionInfo → Action W (Option ConnectionDecision)
  unfolding first_match
  get_decision table now c = do
    decisions ← table.find_connection_decisions c.remote_addr c.remote_port c.process_name
    pure (first_match now c decisions)
