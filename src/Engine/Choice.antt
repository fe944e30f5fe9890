-- ===== src/Engine/Choice.antt =====
-- Which flow an exclusive gateway takes (src/process/exclusive_gateway.go).
use atom_engine.Base.{
  ◌≡◌, refl, ap, ◌∙◌, String, Bool, true, false, some, List, [], ◌∷◌, Dict, All, str_eq, arith,
  Bool-cases, inl, inr, if◌then◌else◌,
}
use atom_engine.Token.{Value}
use atom_engine.Engine.Elements.{member}
use atom_engine.Engine.Exclusive.{
  FlowTest, skipped, unconditional, conditional, flow_test, flows_of, chosen, first_match,
  next_default, try_flow, or_first, found_or, select_flow, execute_exclusive,
}

-- The first member that passes a test, or else a given text.
abbrev pub find_or : (String → Bool) → String → List String → String
find_or p other [] = other
find_or p other (x ∷ xs) = if p x then x else find_or p other xs

abbrev pub lacks_condition : FlowTest → Bool
lacks_condition unconditional = true
lacks_condition _ = false

abbrev pub is_unconditional : Dict Value → String → Bool
is_unconditional elements flow_id = lacks_condition (flow_test elements flow_id)

module _ (evaluate : Dict Value → String → Bool) (variables : Dict Value) where
  abbrev pub condition_holds : FlowTest → Bool
  condition_holds (conditional e) = evaluate variables e
  condition_holds _ = false

module _ (evaluate : Dict Value → String → Bool) (variables elements : Dict Value) where
  abbrev pub holds : String → Bool
  holds flow_id = condition_holds evaluate variables (flow_test elements flow_id)

  first_match-find :
      (first : String) (flows : List String) (d : String)
      → All (λ f. str_eq f "" ≡ false) flows
      → found_or first (first_match evaluate variables elements flows d)
        ≡ find_or holds (or_first d (find_or (is_unconditional elements) first flows)) flows
  unfolding first_match
  first_match-find first [] d w = refl
  first_match-find first (f ∷ rest) d (ne, w) =
      step (flow_test elements f) (λ d'. first_match-find first rest d' w)
    where
      other : String
      other = find_or (is_unconditional elements) first rest

      step :
          (t : FlowTest)
          → ((d' : String)
              → found_or first (first_match evaluate variables elements rest d')
                ≡ find_or holds (or_first d' other) rest)
          → found_or first (
              try_flow evaluate variables t f d
                (first_match evaluate variables elements rest (next_default t f d)))
            ≡ (if condition_holds evaluate variables t
                then f
                else find_or holds (or_first d (if lacks_condition t then f else other)) rest)
      step skipped later = later d
      step unconditional later =
          later (next_default unconditional f d) ∙ ap (λ o. find_or holds o rest) (ground arith)
      step (conditional x) later = elim (Bool-cases (evaluate variables x)) [
        | inl y ↦ rw y refl
        | inr n ↦ rw n (later d)
      ]

  -- An exclusive gateway with outgoing flows takes exactly one of them: the first one whose condition
  -- holds; or else the first one without a condition; or else the first one. The process can be
  -- loaded, and no flow has the empty id.
  pub execute_exclusive-choice :
      (element outgoing : Value) (first : String) (rest : List String)
      → member "outgoing" element ≡ some outgoing
      → flows_of (some outgoing) ≡ first ∷ rest
      → All (λ f. str_eq f "" ≡ false) (first ∷ rest)
      → execute_exclusive evaluate variables (some elements) element
        ≡ chosen (
            find_or holds (find_or (is_unconditional elements) first (first ∷ rest)) (first ∷ rest)
            ∷ [])
  unfolding execute_exclusive select_flow
  execute_exclusive-choice element outgoing first rest e f w =
      let same = first_match-find first (first ∷ rest) "" w in
      rw (e, execute_exclusive) (rw f (ap (λ flow. chosen (flow ∷ [])) same))
