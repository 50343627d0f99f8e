-- ===== src/Planner/Plan/Order.antt =====
-- The order of a validated plan: every task once its dependencies have come.
use subagent_bridge.Prelude.{
  String, Bool, true, false, ◌&&◌, ◌||◌, ◌≡◌, ◌⊎◌, inl, inr, refl, sym, ◌∙◌, subst, Option, none,
  some, List, [], ◌∷◌, ◌++◌, has, all, distinct, is_some, arith, eq_iff, ==_refl, Bool-cases,
  Option-cases, and_left, and_right,
}
use subagent_bridge.Prelude.Exec.{ok, err, key_error}
use subagent_bridge.Prelude.Dict.{get}
use subagent_bridge.Planner.Plan.{Graph, Search, push_deps, left, entered, step}
use subagent_bridge.Planner.Plan.Fuel.{ok_inj, is_entered, has-without}

-- The dependencies of a task; none, if the plan does not have it.
abbrev pub deps_or_nil : Option (List String) → List String
deps_or_nil none = []
deps_or_nil (some deps) = deps

abbrev pub deps_of : Graph → String → List String
deps_of g task = deps_or_nil (get g task)

-- All of these texts are known.
abbrev pub is_covered : List String → List String → Bool
is_covered known xs = all (λ x. has x known) xs

-- Each task comes after its dependencies, which are `known` or come earlier.
abbrev pub is_ordered : Graph → List String → List String → Bool
is_ordered g known [] = true
is_ordered g known (task ∷ tasks) =
    is_covered known (deps_of g task) && is_ordered g (task ∷ known) tasks

-- A task on the stack that waits to be left finds its dependencies visited, or above itself.
abbrev pub waits_well : Graph → List String → List (String × Bool) → Bool
waits_well g known [] = true
waits_well g known ((node, true) ∷ rest) =
    is_covered known (deps_of g node) && waits_well g (node ∷ known) rest
waits_well g known ((node, false) ∷ rest) = waits_well g (node ∷ known) rest

abbrev IsMore : List String → List String → Type 0
IsMore a b = (x : String) → has x a ≡ true → has x b ≡ true

more_covered : (a b xs : List String) → IsMore a b → is_covered a xs ≡ true → is_covered b xs ≡ true
more_covered a b [] m h = refl
more_covered a b (x ∷ xs) m h = ground (arith, m x, more_covered a b xs m)

IsMore-cons : (a b : List String) (k : String) → IsMore a b → IsMore (k ∷ a) (k ∷ b)
IsMore-cons a b k m x h = ground (arith, m x)

more_waits :
    (g : Graph) (a b : List String) (stack : List (String × Bool))
    → IsMore a b
    → waits_well g a stack ≡ true
    → waits_well g b stack ≡ true
more_waits g a b [] m h = refl
more_waits g a b ((node, true) ∷ rest) m h = ground (
  arith,
  h,
  more_covered a b (deps_of g node) m,
  more_waits g (node ∷ a) (node ∷ b) rest (IsMore-cons a b node m),
)
more_waits g a b ((node, false) ∷ rest) m h =
    more_waits g (node ∷ a) (node ∷ b) rest (IsMore-cons a b node m) h

covered_more : (known xs : List String) → IsMore xs known → is_covered known xs ≡ true
covered_more known [] m = refl
covered_more known (x ∷ xs) m =
    ground (arith, m x, ==_refl x, covered_more known xs (λ y h. m y (ground (arith, h))))

-- The tasks that a node waits for after its dependencies were pushed.
push_waits :
    (g : Graph) (node : String) (visited known deps all_deps : List String)
    (rest : List (String × Bool))
    → IsMore visited known
    → waits_well g (node ∷ visited) rest ≡ true
    → ((d : String) → has d all_deps ≡ true → (has d deps ≡ true) ⊎ (has d known ≡ true))
    → deps_of g node ≡ all_deps
    → waits_well g known (push_deps visited deps ((node, true) ∷ rest)) ≡ true
push_waits g node visited known [] all_deps rest m w c e = ground (
  arith,
  subst (λ xs. is_covered known xs ≡ true) (sym e)
      (covered_more known all_deps (λ d h. ground (arith, c d h))),
  more_waits g (node ∷ visited) (node ∷ known) rest (IsMore-cons visited known node m) w,
)
push_waits g node visited known (dep ∷ deps) all_deps rest m w c e =
    elim (Bool-cases (has dep visited)) [
      | inl seen ↦ rw seen (
          push_waits g node visited known deps all_deps rest m w
            (λ d h. ground (arith, c d h, eq_iff dep d, m d, seen)) e)
      | inr fresh ↦ rw fresh (
          push_waits g node visited (dep ∷ known) deps all_deps rest (λ x h. ground (arith, m x)) w
            (λ d h. ground (arith, c d h)) e)
    ]

-- What holds of every state of the search.
pub record IsSound (g : Graph) (s : Search) : Type 0 where
  pub waits : waits_well g s.visited s.stack ≡ true
  pub ordered : is_ordered g [] s.result ≡ true
  pub same : (x : String) → has x s.visited ≡ has x s.result
  pub disjoint : (x : String) → has x s.visiting ≡ true → has x s.visited ≡ false
  pub once : distinct s.result ≡ true
  pub planned : (x : String) → is_entered s x ≡ true → is_some (get g x) ≡ true

has-append : (x : String) (xs ys : List String) → has x (xs ++ ys) ≡ (has x xs || has x ys)
has-append x [] ys = refl
has-append x (y ∷ xs) ys = ground (arith, has-append x xs ys)

-- One more task at the end of an order.
ordered_append :
    (g : Graph) (known order : List String) (node : String)
    → is_ordered g known order ≡ true
    → ((d : String) → has d (deps_of g node) ≡ true → (has d known || has d order) ≡ true)
    → is_ordered g known (order ++ node ∷ []) ≡ true
ordered_append g known [] node h c =
    ground (arith, covered_more known (deps_of g node) (λ d k. ground (arith, c d k)))
ordered_append g known (task ∷ order) node h c = ground (
  arith,
  h,
  ordered_append g (task ∷ known) order node
      (and_right (is_covered known (deps_of g task)) (is_ordered g (task ∷ known) order) h)
      (λ d k. ground (arith, c d k)),
)

covered_has :
    (known xs : List String) (x : String)
    → is_covered known xs ≡ true
    → has x xs ≡ true
    → has x known ≡ true
covered_has known [] x h k = absurd (ground arith)
covered_has known (y ∷ xs) x h k = ground (arith, eq_iff y x, covered_has known xs x)

once_more :
    (xs : List String) (node : String)
    → distinct xs ≡ true
    → has node xs ≡ false
    → distinct (xs ++ node ∷ []) ≡ true
once_more [] node h n = refl
once_more (x ∷ xs) node h n =
    ground
      (arith, h, n, eq_iff x node, eq_iff node x, has-append x xs (node ∷ []), once_more xs node)

-- After a step the search is as sound as with its task still on the stack.
pub step-IsSound :
    (g : Graph) (node : String) (leaving : Bool) (s t : Search)
    → IsSound g (record s { stack = (node, leaving) ∷ s.stack })
    → step g node leaving s ≡ ok t
    → IsSound g t
unfolding step
step-IsSound g node true s t i h = elim (Bool-cases (has node s.visiting)) [
  | inr absent ↦ absurd (ground (arith, absent, h))
  | inl there ↦
      let done : step g node true s ≡ ok (left node s) = rw there refl in
      let same : left node s ≡ t = ok_inj (sym done ∙ h) in
      subst (λ u. IsSound g u) same
        (record {
          waits =
              and_right (is_covered s.visited (deps_of g node))
                (waits_well g (node ∷ s.visited) s.stack) i.waits;
          ordered = ordered_append g [] s.result node i.ordered (λ d k.
              sym (i.same d)
              ∙ covered_has s.visited (deps_of g node) d
                  (and_left (is_covered s.visited (deps_of g node))
                    (waits_well g (node ∷ s.visited) s.stack) i.waits)
                  k);
          same = λ x. ground (arith, has-append x s.result (node ∷ []), i.same x);
          disjoint = λ x k. ground (arith, has-without x node s.visiting, k, i.disjoint x);
          once =
              once_more s.result node i.once (ground (arith, i.same node, i.disjoint node there));
          planned = λ x k.
              i.planned x (ground (arith, k, there, eq_iff node x, has-without x node s.visiting));
        })
]
step-IsSound g node false s t i h = elim (Bool-cases (has node s.visiting)) [
  | inl there ↦ absurd (ground (arith, there, h))
  | inr absent ↦ elim (Bool-cases (has node s.visited)) [
    | inl seen ↦
        let done : step g node false s ≡ ok s = rw (absent, seen) refl in
        let same : s ≡ t = ok_inj (sym done ∙ h) in
        subst (λ u. IsSound g u) same
          (record {
            waits =
                more_waits g (node ∷ s.visited) s.visited s.stack
                  (λ x k. ground (arith, eq_iff node x, seen, k)) i.waits;
            ordered = i.ordered;
            same = i.same;
            disjoint = i.disjoint;
            once = i.once;
            planned = i.planned;
          })
    | inr fresh ↦ elim (Option-cases (get g node)) [
      | inl lost ↦
          let done : step g node false s ≡ err key_error = rw (absent, fresh, lost) refl in
          absurd (ground (arith, sym done ∙ h))
      | inr (deps, found) ↦
          let done : step g node false s ≡ ok (entered node deps s) =
            rw (absent, fresh, found) refl in
          let same : entered node deps s ≡ t = ok_inj (sym done ∙ h) in
          subst (λ u. IsSound g u) same
            (record {
              waits =
                  push_waits g node s.visited s.visited deps deps s.stack (λ x k. k) i.waits
                    (λ d k. inl k) (rw found refl);
              ordered = i.ordered;
              same = i.same;
              disjoint = λ x k. ground (arith, eq_iff node x, fresh, i.disjoint x, k);
              once = i.once;
              planned = λ x k. ground (arith, eq_iff node x, found, i.planned x, k);
            })
    ]
  ]
]
