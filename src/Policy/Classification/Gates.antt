-- ===== src/Policy/Classification/Gates.antt =====
-- What passes without a human gate, and what a fingerprint identifies.
use subagent_bridge.Prelude.{
  String, Bool, true, false, not, ◌&&◌, ◌||◌, ◌≡◌, ◌⊎◌, inl, inr, refl, sym, ap, ◌∙◌, List, [], ◌∷◌,
  all, is_empty, arith, ==→eq, Bool-cases, Option-cases, ◌==◌,
}
use subagent_bridge.Prelude.Dict.{get, get-all}
use subagent_bridge.Policy.Classification.{
  GateCategory, OperationRequest, rules, is_listed, is_read, or_unknown, classify,
}

-- The two operations that only read.
abbrev reads : String → GateCategory → Bool
reads k c = not (is_read c) || k == "file.read" || k == "task.inspect"

rules_read : all (λ r. reads r.0 r.1) rules ≡ true
unfolding rules
rules_read = refl

read_is_named :
    (operation : String)
    → is_read (or_unknown (get rules operation)) ≡ true
    → (operation == "file.read" || operation == "task.inspect") ≡ true
read_is_named operation h = elim (Option-cases (get rules operation)) [
  | inl absent ↦ absurd (ground (arith, sym (ap (λ o. is_read (or_unknown o)) absent) ∙ h))
  | inr (c, found) ↦
      let reading = sym (ap (λ o. is_read (or_unknown o)) found) ∙ h in
      ground (arith, get-all reads rules operation c rules_read found, reading)
]

-- A file read without arguments, or an inspection with none or with listed ones.
abbrev pub IsInspection : OperationRequest → Type 0
IsInspection r =
    ((r.operation ≡ "file.read") × (r.argv ≡ []))
    ⊎ ((r.operation ≡ "task.inspect") × ((r.argv ≡ []) ⊎ (is_listed r.argv ≡ true)))

empty→nil : (xs : List String) → is_empty xs ≡ true → xs ≡ []
empty→nil [] h = refl
empty→nil (x ∷ xs) h = absurd (ground arith)

-- What the tests of `classify` were when it asks for no human.
ungated_tests :
    (r : OperationRequest)
    → (classify r).human_gate_required ≡ false
    → ((is_read (or_unknown (get rules r.operation))
          && r.operation == "file.read"
          && not (is_empty r.argv))
        ≡ false)
      × ((is_read (or_unknown (get rules r.operation))
            && r.operation == "task.inspect"
            && not (is_empty r.argv)
            && not (is_listed r.argv))
          ≡ false)
      × (is_read (or_unknown (get rules r.operation)) ≡ true)
unfolding classify
ungated_tests r h =
    let reading = is_read (or_unknown (get rules r.operation)) in
    elim (Bool-cases (reading && r.operation == "file.read" && not (is_empty r.argv))) [
      | inl odd ↦ absurd (ground (arith, sym (gate odd) ∙ h))
      | inr fine ↦
          elim (Bool-cases (
            reading
            && r.operation == "task.inspect"
            && not (is_empty r.argv)
            && not (is_listed r.argv))) [
              | inl odd ↦ absurd (ground (arith, sym (gate2 fine odd) ∙ h))
              | inr plain ↦ elim (Bool-cases reading) [
                | inl does_read ↦ (fine, plain, does_read)
                | inr writes ↦ absurd (ground (arith, sym (gate3 fine plain writes) ∙ h))
              ]
            ]
    ]
  where
    gate2 :
        (is_read (or_unknown (get rules r.operation))
            && r.operation == "file.read"
            && not (is_empty r.argv))
          ≡ false
        → (is_read (or_unknown (get rules r.operation))
            && r.operation == "task.inspect"
            && not (is_empty r.argv)
            && not (is_listed r.argv))
          ≡ true
        → (classify r).human_gate_required ≡ true
    gate2 fine odd = rw (fine, odd) refl

    gate3 :
        (is_read (or_unknown (get rules r.operation))
            && r.operation == "file.read"
            && not (is_empty r.argv))
          ≡ false
        → (is_read (or_unknown (get rules r.operation))
            && r.operation == "task.inspect"
            && not (is_empty r.argv)
            && not (is_listed r.argv))
          ≡ false
        → is_read (or_unknown (get rules r.operation)) ≡ false
        → (classify r).human_gate_required ≡ true
    gate3 fine plain writes = rw (fine, plain, writes) refl

    gate :
        (is_read (or_unknown (get rules r.operation))
            && r.operation == "file.read"
            && not (is_empty r.argv))
          ≡ true
        → (classify r).human_gate_required ≡ true
    gate odd = rw odd refl

listed :
    (reading inspects no_args is_in : Bool)
    → reading ≡ true
    → inspects ≡ true
    → no_args ≡ false
    → (reading && inspects && not no_args && not is_in) ≡ false
    → is_in ≡ true
listed reading inspects no_args is_in a b c d = ground arith

no_arguments :
    (reading file no_args : Bool)
    → reading ≡ true
    → file ≡ true
    → (reading && file && not no_args) ≡ false
    → no_args ≡ true
no_arguments reading file no_args a b c = ground arith

-- An operation that passes without a human gate only inspects: it reads a file and runs nothing, or
-- it is an inspection whose command line, if any, is on the list.
pub ungated-IsInspection :
    (r : OperationRequest) → (classify r).human_gate_required ≡ false → IsInspection r
ungated-IsInspection r h =
    let t = ungated_tests r h in
    elim (Bool-cases (r.operation == "file.read")) [
      | inl file ↦ inl (
        ==→eq r.operation "file.read" file,
        empty→nil r.argv (
            no_arguments (is_read (or_unknown (get rules r.operation))) (r.operation == "file.read")
              (is_empty r.argv) t.2 file t.0),
      )
      | inr not_file ↦
          let named = read_is_named r.operation t.2 in
          let inspects : (r.operation == "task.inspect") ≡ true = ground (arith, named, not_file) in
          inr (
            ==→eq r.operation "task.inspect" inspects,
            elim (Bool-cases (is_empty r.argv)) [
              | inl none_given ↦ inl (empty→nil r.argv none_given)
              | inr given ↦ inr (
                  listed (is_read (or_unknown (get rules r.operation)))
                    (r.operation == "task.inspect") (is_empty r.argv) (is_listed r.argv) t.2
                    inspects given t.1)
            ],
          )
    ]
