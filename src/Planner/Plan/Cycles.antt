-- ===== src/Planner/Plan/Cycles.antt =====
-- A plan whose checks hold is refused only for a cycle of its dependencies.
use subagent_bridge.Prelude.{
  String, Bool, true, false, ◌≡◌, ◌⊎◌, inl, inr, refl, subst, List, [], ◌∷◌, has, all, is_some,
  arith, ◌==◌, ==_refl, ==→eq, Bool-cases,
}
use subagent_bridge.Prelude.Dict.{get}
use subagent_bridge.Planner.Plan.{Graph, push_deps}
use subagent_bridge.Planner.Plan.Order.{deps_of}

-- One task depends on another, over any number of dependencies.
pub data Depends (g : Graph) (a : String) : String → Type 0 where
  direct : {b : String} → has b (deps_of g a) ≡ true → Depends g a b
  further : {b c : String} → Depends g a b → has c (deps_of g b) ≡ true → Depends g a c

abbrev pub leaves : List (String × Bool) → List String
leaves [] = []
leaves ((node, true) ∷ rest) = node ∷ leaves rest
leaves ((node, false) ∷ rest) = leaves rest

-- A task that waits to be left depends on everything above it.
abbrev pub IsChained : Graph → List String → List (String × Bool) → Type 0
IsChained g above [] = Unit
IsChained g above ((node, true) ∷ rest) =
    ((x : String) → has x above ≡ true → Depends g node x) × IsChained g (node ∷ above) rest
IsChained g above ((node, false) ∷ rest) = IsChained g (node ∷ above) rest

abbrev pub are_planned : Graph → List (String × Bool) → Bool
are_planned g stack = all (λ e. is_some (get g e.0)) stack

pub IsChained-less :
    (g : Graph) (a b : List String) (stack : List (String × Bool))
    → ((x : String) → has x b ≡ true → has x a ≡ true)
    → IsChained g a stack
    → IsChained g b stack
IsChained-less g a b [] m h = tt
IsChained-less g a b ((node, true) ∷ rest) m h = (
  λ x k. h.0 x (m x k),
  IsChained-less g (node ∷ a) (node ∷ b) rest (λ x k. ground (arith, m x, k)) h.1,
)
IsChained-less g a b ((node, false) ∷ rest) m h =
    IsChained-less g (node ∷ a) (node ∷ b) rest (λ x k. ground (arith, m x, k)) h

-- What is above may be joined by dependencies of what is there.
IsChained-deps :
    (g : Graph) (node : String) (a b : List String) (stack : List (String × Bool))
    → has node a ≡ true
    → ((x : String) → has x b ≡ true → (has x a ≡ true) ⊎ (has x (deps_of g node) ≡ true))
    → IsChained g a stack
    → IsChained g b stack
IsChained-deps g node a b [] n m h = tt
IsChained-deps g node a b ((k, true) ∷ rest) n m h = (
  λ x e. elim (m x e) [ inl old ↦ h.0 x old | inr dep ↦ further (h.0 node n) dep ],
  IsChained-deps g node (k ∷ a) (k ∷ b) rest (ground (arith, n)) (λ x e. ground (arith, m x, e))
      h.1,
)
IsChained-deps g node a b ((k, false) ∷ rest) n m h =
    IsChained-deps g node (k ∷ a) (k ∷ b) rest (ground (arith, n)) (λ x e. ground (arith, m x, e)) h

-- The dependencies of a node, pushed above it.
pub IsChained-push :
    (g : Graph) (node : String) (visited deps above : List String) (rest : List (String × Bool))
    → ((x : String) → has x deps ≡ true → has x (deps_of g node) ≡ true)
    → ((x : String) → has x above ≡ true → has x (deps_of g node) ≡ true)
    → IsChained g (node ∷ []) rest
    → IsChained g above (push_deps visited deps ((node, true) ∷ rest))
IsChained-push g node visited [] above rest d a h = (
  λ x k. direct (a x k),
  IsChained-deps g node (node ∷ []) (node ∷ above) rest (rw (==_refl node) refl)
      (λ x k. ground (arith, a x, k)) h,
)
IsChained-push g node visited (dep ∷ deps) above rest d a h = elim (Bool-cases (has dep visited)) [
  | inl seen ↦
      rw seen (IsChained-push g node visited deps above rest (λ x k. d x (ground (arith, k))) a h)
  | inr fresh ↦ rw fresh (
      IsChained-push g node visited deps (dep ∷ above) rest (λ x k. d x (ground (arith, k)))
        (λ x k. ground (arith, d x, a x, k)) h)
]

-- A waiting task depends on all that is above.
pub chained_leaf :
    (g : Graph) (above : List String) (x y : String) (stack : List (String × Bool))
    → IsChained g above stack
    → has x (leaves stack) ≡ true
    → has y above ≡ true
    → Depends g x y
chained_leaf g above x y [] h l a = absurd (ground arith)
chained_leaf g above x y ((node, true) ∷ rest) h l a = elim (Bool-cases (node == x)) [
  | inl here ↦ subst (λ z. Depends g z y) (==→eq node x here) (h.0 y a)
  | inr there ↦
      chained_leaf g (node ∷ above) x y rest h.1 (ground (arith, l, there)) (ground (arith, a))
]
chained_leaf g above x y ((node, false) ∷ rest) h l a =
    chained_leaf g (node ∷ above) x y rest h l (ground (arith, a))

pub leaves-push_deps :
    (visited deps : List String) (rest : List (String × Bool))
    → leaves (push_deps visited deps rest) ≡ leaves rest
leaves-push_deps visited [] rest = refl
leaves-push_deps visited (dep ∷ deps) rest = ground (arith, leaves-push_deps visited deps rest)

pub planned_push :
    (g : Graph) (visited deps : List String) (rest : List (String × Bool))
    → all (λ d. is_some (get g d)) deps ≡ true
    → are_planned g rest ≡ true
    → are_planned g (push_deps visited deps rest) ≡ true
planned_push g visited [] rest d r = r
planned_push g visited (dep ∷ deps) rest d r =
    ground (arith, planned_push g visited deps rest, d, r)
