-- ===== src/Graph/Deps.antt =====
-- What a graph is built with (app/graph/nodes/base.py, app/core/config.py), and small helpers of the
-- nodes.
use mathlib.Core.List.{reverse}
use conversational_copil.Prelude.{
  ℕ, String, ◌-◌, Option, none, some, List, [], ◌∷◌, ◌==◌, if◌then◌else◌, length, drop, join,
  present,
}
use conversational_copil.Access.{PrincipalContext}
use conversational_copil.Entities.{public_lookup_slots, public_lookup_plan, public_lookup_context}
use conversational_copil.Graph.State.{Answer, Message, Role, CopilotState}
use conversational_copil.Graph.Agents.{Services}

-- The settings that the graph reads; limits are taken to be at least 0.
pub record Settings : Type 0 where
  pub chat_history_limit : ℕ
  pub max_sql_retries : ℕ
  pub max_result_preview_rows : ℕ

pub record Deps : Type 0 where
  pub principal : Option PrincipalContext
  pub settings : Settings
  pub services : Services

-- `state.get("principal") or self.principal`
unfoldable pub caller : Deps → CopilotState → Option PrincipalContext
caller d s = elim s.principal [ none ↦ d.principal | some p ↦ some p ]

-- `" | ".join(part for part in parts if part)`
unfoldable pub reasons : List (Option String) → String
unfolding join present
reasons parts = join " | " (present parts)

-- `xs[-n:]`
unfoldable pub last {ℓ} : {A : Type ℓ} → ℕ → List A → List A
last n xs = if n == 0 then xs else drop (length xs - n) xs

-- the loop of `parse_last_assistant_payload`, over the history from its end
unfoldable pub first_payload : (String → Option Answer) → List Message → Option Answer
first_payload loads [] = none
first_payload loads (m ∷ ms) =
    let rest = first_payload loads ms in
    elim m.role [
      | Role.user ↦ rest
      | Role.assistant ↦ elim (loads m.content) [ none ↦ rest | some p ↦ some p ]
    ]

unfoldable pub parse_last_assistant_payload :
    (String → Option Answer) → List Message → Option Answer
unfolding first_payload
parse_last_assistant_payload loads history = first_payload loads (reverse history)

-- The lookup fields that most terminals put on their result, and, where the terminal writes it, the
-- policies of the turn.
unfoldable pub with_lookup : CopilotState → Answer → Answer
unfolding public_lookup_slots public_lookup_plan public_lookup_context
with_lookup s a = record a {
  lookup_matches = some (public_lookup_slots s.lookup_matches);
  lookup_context = some (public_lookup_context s.lookup_plan s.lookup_context);
  lookup_plan = public_lookup_plan s.lookup_plan;
}
