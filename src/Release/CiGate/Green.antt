-- ===== src/Release/CiGate/Green.antt =====
-- What the tests of the gate say of a run and of a job.
use subagent_bridge.Prelude.{
  ℕ, zero, suc, String, true, ◌≡◌, ◌⊎◌, inl, inr, refl, sym, ap, ◌∙◌, some, List, ◌∷◌, has, arith,
  ◌==◌, ==→eq, Bool-cases,
}
use subagent_bridge.Prelude.Exec.{Result, ok, err}
use subagent_bridge.Prelude.Int.{pos, negsuc}
use subagent_bridge.Storage.Json.{
  Json, Items, Fields, null, boolean, integer, float, text, array, object, other, no_items, item,
}
use subagent_bridge.Release.CiGate.{
  member, is_text, is_main_run, positive, run_id, is_success, add_name, succeeded,
}

-- The value stands in the list.
pub data IsItem (v : Json) : Items → Type 0 where
  here : {rest : Items} → IsItem v (item v rest)
  there : {w : Json} {rest : Items} → IsItem v rest → IsItem v (item w rest)

-- A completed and successful push run of the CI workflow on main, for this commit, with this id.
pub record IsGreenRun (commit_sha : String) (id : ℕ) (run : Fields) : Type 0 where
  pub of_commit : member run "head_sha" ≡ text commit_sha
  pub on_main : member run "head_branch" ≡ text "main"
  pub pushed : member run "event" ≡ text "push"
  pub workflow : member run "path" ≡ text ".github/workflows/ci.yml"
  pub is_completed : member run "status" ≡ text "completed"
  pub succeeds : member run "conclusion" ≡ text "success"
  pub has_id : member run "id" ≡ integer (pos (suc id))

-- The list has a completed and successful job of this name.
pub record IsGreenJob (name : String) (jobs : Items) : Type 0 where
  pub job : Fields
  pub listed : IsItem (object job) jobs
  pub named : member job "name" ≡ text name
  pub is_completed : member job "status" ≡ text "completed"
  pub succeeds : member job "conclusion" ≡ text "success"

text_of : (t : String) (v : Json) → is_text t v ≡ true → v ≡ text t
text_of t null h = absurd (ground arith)
text_of t (boolean b) h = absurd (ground arith)
text_of t (integer n) h = absurd (ground arith)
text_of t (float x) h = absurd (ground arith)
text_of t (text s) h = ap text (==→eq s t h)
text_of t (array xs) h = absurd (ground arith)
text_of t (object fs) h = absurd (ground arith)
text_of t other h = absurd (ground arith)

integer_of :
    (v : Json) (id : ℕ)
    → positive v ≡ some id
    → (n : ℕ) × (id ≡ suc n) × (v ≡ integer (pos (suc n)))
integer_of null id h = absurd (ground arith)
integer_of (boolean b) id h = absurd (ground arith)
integer_of (integer (pos zero)) id h = absurd (ground arith)
integer_of (integer (pos (suc n))) id h = (n, ground arith, refl)
integer_of (integer (negsuc n)) id h = absurd (ground arith)
integer_of (float x) id h = absurd (ground arith)
integer_of (text s) id h = absurd (ground arith)
integer_of (array xs) id h = absurd (ground arith)
integer_of (object fs) id h = absurd (ground arith)
integer_of other id h = absurd (ground arith)

-- A run that the loop counts.
pub record IsCounted (commit_sha : String) (id : ℕ) (run : Json) : Type 0 where
  pub number : ℕ
  pub fields : Fields
  pub is_object : run ≡ object fields
  pub numbered : id ≡ suc number
  pub green : IsGreenRun commit_sha number fields

main_run_green :
    (commit_sha : String) (run : Fields) (n : ℕ)
    → is_main_run commit_sha run ≡ true
    → member run "id" ≡ integer (pos (suc n))
    → IsGreenRun commit_sha n run
unfolding is_main_run
main_run_green commit_sha run n h e = record {
  of_commit = text_of commit_sha (member run "head_sha") (ground (arith, h));
  on_main = text_of "main" (member run "head_branch") (ground (arith, h));
  pushed = text_of "push" (member run "event") (ground (arith, h));
  workflow = text_of ".github/workflows/ci.yml" (member run "path") (ground (arith, h));
  is_completed = text_of "completed" (member run "status") (ground (arith, h));
  succeeds = text_of "success" (member run "conclusion") (ground (arith, h));
  has_id = e;
}

pub run_id-IsCounted :
    (commit_sha : String) (run : Json) (id : ℕ)
    → run_id commit_sha run ≡ some id
    → IsCounted commit_sha id run
run_id-IsCounted commit_sha (object run) id h = elim (Bool-cases (is_main_run commit_sha run)) [
  | inr odd ↦ absurd (ground (arith, odd, h))
  | inl main ↦
      let (n, numbered, value) = integer_of (member run "id") id (ground (arith, main, h)) in
      record {
        number = n;
        fields = run;
        is_object = refl;
        numbered = numbered;
        green = main_run_green commit_sha run n main value;
      }
]
run_id-IsCounted commit_sha null id h = absurd (ground arith)
run_id-IsCounted commit_sha (boolean b) id h = absurd (ground arith)
run_id-IsCounted commit_sha (integer n) id h = absurd (ground arith)
run_id-IsCounted commit_sha (float x) id h = absurd (ground arith)
run_id-IsCounted commit_sha (text s) id h = absurd (ground arith)
run_id-IsCounted commit_sha (array xs) id h = absurd (ground arith)
run_id-IsCounted commit_sha other id h = absurd (ground arith)

ok_same {ℓ} : {A : Type ℓ} {a b : A} → ok a ≡ ok b → a ≡ b
ok_same e = cc

-- A name in the set was there before, or is the one that was added.
name_added :
    (v : Json) (r : Result (List String)) (names : List String) (name : String)
    → add_name v r ≡ ok names
    → has name names ≡ true
    → (v ≡ text name) ⊎ ((old : List String) × (r ≡ ok old) × (has name old ≡ true))
name_added (text t) (ok old) names name h k = elim (Bool-cases (t == name)) [
  | inl same ↦ inl (ap text (==→eq t name same))
  | inr apart ↦
      let found : has name (t ∷ old) ≡ true = ap (λ l. has name l) (ok_same h) ∙ k in
      inr (old, refl, ground (arith, found, apart))
]
name_added null (ok old) names name h k = inr (old, refl, ap (λ l. has name l) (ok_same h) ∙ k)
name_added (boolean b) (ok old) names name h k =
    inr (old, refl, ap (λ l. has name l) (ok_same h) ∙ k)
name_added (integer n) (ok old) names name h k =
    inr (old, refl, ap (λ l. has name l) (ok_same h) ∙ k)
name_added (float x) (ok old) names name h k = inr (old, refl, ap (λ l. has name l) (ok_same h) ∙ k)
name_added other (ok old) names name h k = inr (old, refl, ap (λ l. has name l) (ok_same h) ∙ k)
name_added (array xs) (ok old) names name h k = absurd (ground (arith, h))
name_added (object fs) (ok old) names name h k = absurd (ground (arith, h))
name_added null (err e) names name h k = absurd (ground (arith, h))
name_added (boolean b) (err e) names name h k = absurd (ground (arith, h))
name_added (integer n) (err e) names name h k = absurd (ground (arith, h))
name_added (float x) (err e) names name h k = absurd (ground (arith, h))
name_added (text t) (err e) names name h k = absurd (ground (arith, h))
name_added (array xs) (err e) names name h k = absurd (ground (arith, h))
name_added (object fs) (err e) names name h k = absurd (ground (arith, h))
name_added other (err e) names name h k = absurd (ground (arith, h))

later_job :
    {name : String} {w : Json} {jobs : Items} → IsGreenJob name jobs → IsGreenJob name (item w jobs)
later_job g = record {
  job = g.job;
  listed = there g.listed;
  named = g.named;
  is_completed = g.is_completed;
  succeeds = g.succeeds;
}

this_job :
    (name : String) (job : Fields) (rest : Items)
    → is_success job ≡ true
    → member job "name" ≡ text name
    → IsGreenJob name (item (object job) rest)
this_job name job rest h e = record {
  job = job;
  listed = here;
  named = e;
  is_completed = text_of "completed" (member job "status") (ground (arith, h));
  succeeds = text_of "success" (member job "conclusion") (ground (arith, h));
}

-- Each name in the set is that of a job that succeeded.
pub succeeded-IsGreenJob :
    (jobs : Items) (names : List String) (name : String)
    → succeeded jobs ≡ ok names
    → has name names ≡ true
    → IsGreenJob name jobs
unfolding succeeded
succeeded-IsGreenJob no_items names name h k =
    absurd (ground (arith, ap (λ l. has name l) (ok_same h) ∙ k))
succeeded-IsGreenJob (item (object job) rest) names name h k = elim (Bool-cases (is_success job)) [
  | inr red ↦
      let same : succeeded (item (object job) rest) ≡ succeeded rest = rw red refl in
      later_job (succeeded-IsGreenJob rest names name (sym same ∙ h) k)
  | inl green ↦
      let same : succeeded (item (object job) rest)
          ≡ add_name (member job "name") (succeeded rest) =
        rw green refl in
      elim (name_added (member job "name") (succeeded rest) names name (sym same ∙ h) k) [
        | inl named ↦ this_job name job rest green named
        | inr (old, before, found) ↦ later_job (succeeded-IsGreenJob rest old name before found)
      ]
]
succeeded-IsGreenJob (item null rest) names name h k =
    later_job (succeeded-IsGreenJob rest names name h k)
succeeded-IsGreenJob (item (boolean b) rest) names name h k =
    later_job (succeeded-IsGreenJob rest names name h k)
succeeded-IsGreenJob (item (integer n) rest) names name h k =
    later_job (succeeded-IsGreenJob rest names name h k)
succeeded-IsGreenJob (item (float x) rest) names name h k =
    later_job (succeeded-IsGreenJob rest names name h k)
succeeded-IsGreenJob (item (text t) rest) names name h k =
    later_job (succeeded-IsGreenJob rest names name h k)
succeeded-IsGreenJob (item (array xs) rest) names name h k =
    later_job (succeeded-IsGreenJob rest names name h k)
succeeded-IsGreenJob (item other rest) names name h k =
    later_job (succeeded-IsGreenJob rest names name h k)
