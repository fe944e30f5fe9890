-- ===== src/Engine/Branches.antt =====
-- Which flows an inclusive gateway takes (src/process/inclusive_gateway.go).
use atom_engine.Base.{
  ◌≡◌, refl, ap, ◌∙◌, String, Bool, false, none, some, List, [], ◌∷◌, Dict, All, select, take,
  str_eq, arith, if◌then◌else◌,
}
use atom_engine.Token.{Value}
use atom_engine.Engine.Elements.{member}
use atom_engine.Engine.Exclusive.{
  FlowTest, skipped, unconditional, conditional, flows_of, chosen, next_default,
}
use atom_engine.Engine.Choice.{condition_holds, lacks_condition}
use atom_engine.Engine.Inclusive.{
  evaluate_flow_condition, add_flow, select_flows, settle_flows, execute_inclusive,
}

-- The second list where the first is empty.
abbrev pub or_else : List String → List String → List String
or_else [] ys = ys
or_else (x ∷ xs) ys = x ∷ xs

-- The default flow, if there is one.
abbrev some_default : String → List String
some_default d = if str_eq d "" then [] else d ∷ []

settle_flows-or_else :
    (flows selected : List String) (default_flow : String)
    → settle_flows flows (selected, default_flow)
      ≡ or_else selected (or_else (some_default default_flow) flows)
settle_flows-or_else flows [] default_flow = ground arith
settle_flows-or_else flows (x ∷ xs) default_flow = refl

module _ (evaluate : Dict Value → String → Bool) (variables : Dict Value) (element : Value) where
  abbrev pub is_taken : String → Bool
  is_taken flow_id = condition_holds evaluate variables (evaluate_flow_condition element flow_id)

  abbrev pub is_open_flow : String → Bool
  is_open_flow flow_id = lacks_condition (evaluate_flow_condition element flow_id)

  select_flows-taken :
      (flows : List String) (d : String)
      → (select_flows evaluate variables element flows d).0 ≡ select is_taken flows
  unfolding select_flows
  select_flows-taken [] d = refl
  select_flows-taken (f ∷ rest) d =
      step (evaluate_flow_condition element f) (select_flows-taken rest)
    where
      step :
          (t : FlowTest)
          → ((d' : String)
              → (select_flows evaluate variables element rest d').0 ≡ select is_taken rest)
          → add_flow evaluate variables t f
              (select_flows evaluate variables element rest (next_default t f d)).0
            ≡ (if condition_holds evaluate variables t
                then f ∷ select is_taken rest
                else select is_taken rest)
      step skipped later = later d
      step unconditional later = later _
      step (conditional x) later = rw (later d) refl

  -- The default flow of the loop, for flows with ids.
  abbrev default_of : String → List String → List String
  default_of d flows = if str_eq d "" then take 1 (select is_open_flow flows) else d ∷ []

  select_flows-default :
      (flows : List String) (d : String)
      → All (λ f. str_eq f "" ≡ false) flows
      → some_default (select_flows evaluate variables element flows d).1 ≡ default_of d flows
  unfolding select_flows
  select_flows-default [] d w = ground arith
  select_flows-default (f ∷ rest) d (ne, w) =
      step (evaluate_flow_condition element f) (λ d'. select_flows-default rest d' w)
    where
      found : String → List String
      found d' = some_default (select_flows evaluate variables element rest d').1

      step :
          (t : FlowTest)
          → ((d' : String) → found d' ≡ default_of d' rest)
          → found (next_default t f d) ≡ (
              if str_eq d ""
              then take 1 (
                  if lacks_condition t
                  then f ∷ select is_open_flow rest
                  else select is_open_flow rest)
              else d ∷ [])
      step skipped later = later d
      step unconditional later = later (next_default unconditional f d) ∙ ground arith
      step (conditional x) later = later d

  -- An inclusive gateway with outgoing flows takes all of them whose conditions hold, in their order;
  -- if there is none, the first flow without a condition; and if there is none, all flows. So it
  -- takes at least one. No flow has the empty id.
  pub execute_inclusive-flows :
      (outgoing : Value) (first : String) (rest : List String)
      → member "outgoing" element ≡ some outgoing
      → flows_of (some outgoing) ≡ first ∷ rest
      → All (λ f. str_eq f "" ≡ false) (first ∷ rest)
      → let flows = first ∷ rest in
        execute_inclusive evaluate variables element
        ≡ chosen
            (or_else (select is_taken flows) (or_else (take 1 (select is_open_flow flows)) flows))
  unfolding execute_inclusive
  execute_inclusive-flows outgoing first rest e f w =
      let flows = first ∷ rest in
      let loop = select_flows evaluate variables element flows "" in
      rw (e, execute_inclusive)
        (rw f (
          ap chosen (
            settle_flows-or_else flows loop.0 loop.1
            ∙ ap (λ s. or_else s (or_else (some_default loop.1) flows))
                (select_flows-taken flows "")
            ∙ ap (λ o. or_else (select is_taken flows) (or_else o flows))
                (select_flows-default flows "" w))))

  evaluate_flow_condition-unread :
      (flow_id : String)
      → member "sequenceFlows" element ≡ none
      → evaluate_flow_condition element flow_id ≡ unconditional
  unfolding evaluate_flow_condition
  evaluate_flow_condition-unread flow_id m = rw (m, evaluate_flow_condition) refl

  select-unread :
      (flows : List String) → member "sequenceFlows" element ≡ none → select is_taken flows ≡ []
  select-unread [] m = refl
  select-unread (f ∷ rest) m = rw (evaluate_flow_condition-unread f m) (select-unread rest m)

  -- Where the element has no map "sequenceFlows", no condition is evaluated: an inclusive gateway
  -- takes its first flow, and no other. No flow has the empty id.
  pub execute_inclusive-unread :
      (outgoing : Value) (first : String) (rest : List String)
      → member "sequenceFlows" element ≡ none
      → member "outgoing" element ≡ some outgoing
      → flows_of (some outgoing) ≡ first ∷ rest
      → All (λ f. str_eq f "" ≡ false) (first ∷ rest)
      → execute_inclusive evaluate variables element ≡ chosen (first ∷ [])
  execute_inclusive-unread outgoing first rest m e f w =
      execute_inclusive-flows outgoing first rest e f w
      ∙ ap
          (λ taken.
            chosen (
              or_else taken (or_else (take 1 (select is_open_flow (first ∷ rest))) (first ∷ rest))))
          (select-unread (first ∷ rest) m)
      ∙ rw (evaluate_flow_condition-unread first m) refl
