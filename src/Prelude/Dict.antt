-- ===== src/Prelude/Dict.antt =====
-- Python's `dict` with text keys, in insertion order: a new key goes to the end, and a key that
-- is written again keeps its place.
use subagent_bridge.Prelude.Tests.{
  ◌==◌, if◌then◌else◌, ==_refl, ==→eq, Bool-cases, and_left, and_right,
}
use Prim.Native.String.{String}
use mathlib.Core.Path.{◌≡◌, refl, sym, ◌∙◌}
use mathlib.Core.Bool.{Bool, true, false}
use mathlib.Core.Option.{Option, none, some}
use mathlib.Core.Logic.{◌⊎◌, inl, inr}
use Prim.Native.Nat.{ℕ, ◌+◌}
use mathlib.Core.List.{List, [], ◌∷◌}
use native.Mathlib.Omega.{arith}
use text.Mathlib.TextEquality.{eq_iff}
use subagent_bridge.Prelude.Lists.{length, all}

abbrev pub Dict {ℓ} : Type ℓ → Type ℓ
Dict V = List (String × V)

module _ {ℓ} {V : Type ℓ} where
  -- d.get(k)
  unfoldable pub get : Dict V → String → Option V
  get [] k = none
  get ((j, v) ∷ d) k = if j == k then some v else get d k

  -- d[k] = v
  unfoldable pub put : Dict V → String → V → Dict V
  put [] k v = (k, v) ∷ []
  put ((j, w) ∷ d) k v = if j == k then (j, v) ∷ d else (j, w) ∷ put d k v

  -- del d[k], for a key that may be missing
  unfoldable pub remove : Dict V → String → Dict V
  remove [] k = []
  remove ((j, w) ∷ d) k = if j == k then d else (j, w) ∷ remove d k

  pub get-put :
      (d : Dict V) (k j : String) (v : V) → get (put d k v) j ≡ (if k == j then some v else get d j)
  unfolding get put
  get-put [] k j v = refl
  get-put ((i, w) ∷ d) k j v = ground (arith, eq_iff k j, eq_iff i k, eq_iff i j, get-put d k j v)

  pub get-put_self : (d : Dict V) (k : String) (v : V) → get (put d k v) k ≡ some v
  get-put_self d k v = ground (arith, get-put d k k v, ==_refl k)

  -- A write at a missing key loses nothing.
  pub get-put_fresh :
      (d : Dict V) (k j : String) (v w : V)
      → get d k ≡ none
      → get d j ≡ some w
      → get (put d k v) j ≡ some w
  get-put_fresh d k j v w fresh h = ground (arith, get-put d k j v, eq_iff k j)

  -- What is found after a write is what was written, or was there before.
  pub get-put_cases :
      (d : Dict V) (k j : String) (v w : V)
      → get (put d k v) j ≡ some w
      → ((k ≡ j) × (v ≡ w)) ⊎ (get d j ≡ some w)
  get-put_cases d k j v w h = ground (arith, get-put d k j v, eq_iff k j)

  -- The sum of a measure over the values, and the measure of a value that may be missing.
  unfoldable pub total : (V → ℕ) → Dict V → ℕ
  total f [] = 0
  total f ((j, v) ∷ d) = f v + total f d

  abbrev pub measure : (V → ℕ) → Option V → ℕ
  measure f none = 0
  measure f (some v) = f v

  pub total-put :
      (f : V → ℕ) (d : Dict V) (k : String) (v : V)
      → total f (put d k v) + measure f (get d k) ≡ total f d + f v
  unfolding total put get
  total-put f [] k v = omega arith
  total-put f ((j, w) ∷ d) k v = elim (Bool-cases (j == k)) [
    | inl here ↦ rw here (omega arith)
    | inr there ↦ rw there (omega (arith, total-put f d k v))
  ]

  pub total-remove :
      (f : V → ℕ) (d : Dict V) (k : String) → total f (remove d k) + measure f (get d k) ≡ total f d
  unfolding total remove get
  total-remove f [] k = omega arith
  total-remove f ((j, w) ∷ d) k = elim (Bool-cases (j == k)) [
    | inl here ↦ rw here (omega arith)
    | inr there ↦ rw there (omega (arith, total-remove f d k))
  ]

  pub length-total : (d : Dict V) → length d ≡ total (λ v. 1) d
  unfolding total
  length-total [] = refl
  length-total ((k, v) ∷ d) = omega (arith, length-total d)

-- What holds of every entry holds of the one that is found.
pub get-all :
    {V : Type 0} (p : String → V → Bool) (d : Dict V) (k : String) (v : V)
    → all (λ r. p r.0 r.1) d ≡ true
    → get d k ≡ some v
    → p k v ≡ true
unfolding get
get-all p [] k v h e = absurd (ground arith)
get-all p ((j, w) ∷ d) k v h e = elim (Bool-cases (j == k)) [
  | inl here ↦
      let found : some w ≡ some v = sym (first here) ∙ e in
      let same : w ≡ v = cc in
      rw (← ==→eq j k here, ← same) (and_left (p j w) (all (λ r. p r.0 r.1) d) h)
  | inr there ↦
      get-all p d k v (and_right (p j w) (all (λ r. p r.0 r.1) d) h) (sym (next there) ∙ e)
]
  where
    first : (j == k) ≡ true → get ((j, w) ∷ d) k ≡ some w
    first here = rw here refl

    next : (j == k) ≡ false → get ((j, w) ∷ d) k ≡ get d k
    next there = rw there refl

pub ruleset dict_laws = (get-put)
