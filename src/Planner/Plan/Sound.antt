-- ===== src/Planner/Plan/Sound.antt =====
-- The whole search of a plan: its loops keep what each step keeps, and miss no task.
use subagent_bridge.Prelude.{
  ℕ, zero, suc, String, Bool, true, false, ◌||◌, ◌≡◌, inl, inr, refl, sym, ap, ◌∙◌, subst, List, [],
  ◌∷◌, has, arith, eq_iff, ◌==◌, Bool-cases, Option-cases,
}
use subagent_bridge.Prelude.Exec.{ok, err, Result-cases, key_error}
use subagent_bridge.Prelude.Dict.{get}
use subagent_bridge.Planner.Plan.{Graph, Search, push_deps, left, entered, step, search}
use subagent_bridge.Planner.Plan.Fuel.{List-cases, ok_inj}
use subagent_bridge.Planner.Plan.Order.{IsSound, step-IsSound}

abbrev pub on_stack : String → List (String × Bool) → Bool
on_stack x [] = false
on_stack x ((node, leaving) ∷ rest) = node == x || on_stack x rest

-- The task was visited, or is still to be.
abbrev pub is_tracked : String → Search → Bool
is_tracked x s = has x s.visited || on_stack x s.stack

on_stack-push_deps :
    (x : String) (visited deps : List String) (rest : List (String × Bool))
    → on_stack x rest ≡ true
    → on_stack x (push_deps visited deps rest) ≡ true
on_stack-push_deps x visited [] rest h = h
on_stack-push_deps x visited (dep ∷ deps) rest h =
    ground (arith, h, on_stack-push_deps x visited deps rest)

step_tracks :
    (g : Graph) (node : String) (leaving : Bool) (s t : Search) (x : String)
    → is_tracked x (record s { stack = (node, leaving) ∷ s.stack }) ≡ true
    → step g node leaving s ≡ ok t
    → is_tracked x t ≡ true
unfolding step
step_tracks g node true s t x k h = elim (Bool-cases (has node s.visiting)) [
  | inr absent ↦ absurd (ground (arith, absent, h))
  | inl there ↦
      let done : step g node true s ≡ ok (left node s) = rw there refl in
      subst (λ u. is_tracked x u ≡ true) (ok_inj (sym done ∙ h)) (ground (arith, k))
]
step_tracks g node false s t x k h = elim (Bool-cases (has node s.visiting)) [
  | inl there ↦ absurd (ground (arith, there, h))
  | inr absent ↦ elim (Bool-cases (has node s.visited)) [
    | inl seen ↦
        let done : step g node false s ≡ ok s = rw (absent, seen) refl in
        subst (λ u. is_tracked x u ≡ true) (ok_inj (sym done ∙ h))
          (ground (arith, k, seen, eq_iff node x))
    | inr fresh ↦ elim (Option-cases (get g node)) [
      | inl lost ↦
          let done : step g node false s ≡ err key_error = rw (absent, fresh, lost) refl in
          absurd (ground (arith, sym done ∙ h))
      | inr (deps, found) ↦
          let done : step g node false s ≡ ok (entered node deps s) =
            rw (absent, fresh, found) refl in
          subst (λ u. is_tracked x u ≡ true) (ok_inj (sym done ∙ h))
            (ground (arith, k, on_stack-push_deps x s.visited deps ((node, true) ∷ s.stack)))
    ]
  ]
]

-- What a search that returned leaves: nothing on the stack, a sound state, and every task that was
-- on the stack or visited is visited.
pub record IsSearched (g : Graph) (s t : Search) : Type 0 where
  pub empty : t.stack ≡ []
  pub sound : IsSound g t
  pub tracked : (x : String) → is_tracked x s ≡ true → has x t.visited ≡ true

pub search-IsSearched :
    (n : ℕ) (g : Graph) (s t : Search) → IsSound g s → search n g s ≡ ok t → IsSearched g s t
unfolding search
search-IsSearched zero g s t i h = absurd (ground (arith, h))
search-IsSearched (suc n) g s t i h = elim (List-cases s.stack) [
  | inl empty ↦
      let done : search (suc n) g s ≡ ok s = rw empty refl in
      subst (λ u. IsSearched g s u) (ok_inj (sym done ∙ h))
        (record {
          empty = empty;
          sound = i;
          tracked = λ x k. ground (arith, k, ap (λ l. on_stack x l) empty);
        })
  | inr ((node, leaving), rest, pushed) ↦
      let popped = record s { stack = rest } in
      let full = record s { stack = (node, leaving) ∷ rest } in
      let same : s ≡ full = ap (λ l. record s { stack = l }) pushed in
      elim (Result-cases (step g node leaving popped)) [
        | inr (e, bad) ↦
            let done : search (suc n) g s ≡ err e = rw (pushed, bad) refl in
            absurd (ground (arith, sym done ∙ h))
        | inl (u, next) ↦
            let done : search (suc n) g s ≡ search n g u = rw (pushed, next) refl in
            let rest_done =
              search-IsSearched n g u t
                (step-IsSound g node leaving popped u (subst (λ v. IsSound g v) same i) next)
                (sym done ∙ h) in
            record {
              empty = rest_done.empty;
              sound = rest_done.sound;
              tracked = λ x k. rest_done.tracked x (
                  step_tracks g node leaving popped u x (sym (ap (λ v. is_tracked x v) same) ∙ k)
                    next);
            }
      ]
]
