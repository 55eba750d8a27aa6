-- ===== src/Scenarios/Registry.antt =====
-- A registry of two metrics that share a synonym, and the theorems on what a caller is given at it.
use conversational_copil.Prelude.{
  elem_of, true, ◌≡◌, refl, false, Option, none, some, List, [], ◌∷◌,
}
use conversational_copil.Access.{PrincipalContext, can_see_money}
use conversational_copil.Metrics.{
  MetricDefinition, needs_money, MetricService, load, sees_money, resolve, withheld_for, prefer,
}
use mathlib.Core.List.{Permᴰ}
use conversational_copil.Metrics.Ties.{prefer-Perm}
use conversational_copil.Metrics.Callers.{money_guarded}
use conversational_copil.Metrics.Withheld.{Withholds, withheld_for_lem}

abbrev total_sales : MetricDefinition
total_sales = record {
  metric_key = "total_sales";
  metric_name = "Total sales";
  metric_class = "money";
  min_role_level = "HOD";
  synonyms = "sales" ∷ "revenue" ∷ [];
}

abbrev transactions : MetricDefinition
transactions = record {
  metric_key = "transactions";
  metric_name = "Transactions";
  metric_class = "volume";
  min_role_level = "EXEC";
  synonyms = "sales" ∷ [];
}

abbrev rows : List MetricDefinition
rows = total_sales ∷ transactions ∷ []

abbrev registry : MetricService
registry = load (record { metrics = []; by_synonym = [] }) rows

abbrev executive : Option PrincipalContext
executive = some (record { principal_id = "e1"; role_level = "EXEC" })

blind : sees_money executive ≡ false
unfolding can_see_money
blind = refl

given : resolve registry "Sales" executive ≡ some transactions
unfolding resolve load
given = refl

-- the longest synonym in a question, which only money answers
unanswered : resolve registry "revenue growth" executive ≡ none
unfolding resolve load
unanswered = refl

reported :
    withheld_for registry "revenue growth" executive
    ≡ some (record { requested = total_sales; substitute = some transactions })
unfolding withheld_for load
reported = refl

money_guarded_example : needs_money transactions ≡ false
unfolding needs_money
money_guarded_example =
    money_guarded rows "Sales" executive transactions (refl, (refl, tt)) blind given

withheld_for_lem_example :
    Withholds registry executive
      (record { requested = total_sales; substitute = some transactions })
withheld_for_lem_example = withheld_for_lem registry "revenue growth" executive _ reported

prefer-Perm_example :
    prefer registry true ("transactions" ∷ "total_sales" ∷ [])
    ≡ prefer registry true ("total_sales" ∷ "transactions" ∷ [])
prefer-Perm_example =
    prefer-Perm registry true ("transactions" ∷ "total_sales" ∷ [])
      ("total_sales" ∷ "transactions" ∷ []) (Permᴰ.swap refl refl)

preferred : prefer registry true ("transactions" ∷ "total_sales" ∷ []) ≡ some "total_sales"
unfolding prefer load elem_of
preferred = refl

abbrev open_sales : MetricDefinition
open_sales = record total_sales { min_role_level = "EXEC" }

-- A row may give a metric that needs money to every role.
unguarded :
    resolve (load (record { metrics = []; by_synonym = [] }) (open_sales ∷ [])) "Revenue" executive
    ≡ some open_sales
unfolding resolve load
unguarded = refl
