-- ===== src/Cli/Console/Ends.antt =====
-- A question is answered by the first line that is an answer; `get_yn` of src/ebbflow.rs.
use ebbflow.Prelude.{
  ℕ, suc, ◌-◌, ◌≤◌, ◌≡◌, refl, ◌∙◌, String, Bool, List, [], ◌∷◌, ◌++◌, Option, none, some, map,
  length, All, arith,
}
use ebbflow.Prelude.Result.{ok, err}
use ebbflow.Cli.Console.{Input, Outcome, done, endless, Text, get_string, extract_yn, get_yn}

abbrev lines : List String → Input
lines ls = map ok ls

-- A line that is no answer.
unfoldable pub IsSilent : Text → String → Type 0
IsSilent t line = extract_yn t (t.trim line) ≡ none

get_yn-silent :
    (t : Text) (before : List String) (rest : Input)
    → All (IsSilent t) before
    → get_yn t (lines before ++ rest) ≡ get_yn t rest
unfolding get_yn IsSilent
get_yn-silent t [] rest silent = refl
get_yn-silent t (l ∷ ls) rest silent = rw (silent.0, get_yn) (get_yn-silent t ls rest silent.1)

-- After lines that are no answers, a line that is an answer is the one that is returned, and the
-- input behind it is left; if instead the input ends there and the empty text is no answer, the
-- question is asked for ever.
get_yn-first_answer :
    (t : Text) (before : List String) (line : String) (answer : Bool) (rest : Input)
    → All (IsSilent t) before
    → extract_yn t (t.trim line) ≡ some answer
    → IsSilent t ""
    → (get_yn t (lines before ++ ok line ∷ rest) ≡ done (ok answer) rest)
      × (get_yn t (lines before ++ []) ≡ endless)
unfolding get_yn IsSilent
get_yn-first_answer t before line answer rest silent answers at_end = (
  get_yn-silent t before (ok line ∷ rest) silent ∙ rw (answers, get_yn) refl,
  get_yn-silent t before [] silent ∙ rw (at_end, get_yn) refl,
)

-- How much of the input is left.
abbrev pub Leaves : {A : Type 0} → ℕ → Outcome A → Type 0
Leaves n (done r is) = length is ≤ n
Leaves n endless = Unit {0}

fewer : {A : Type 0} (n : ℕ) (o : Outcome A) → Leaves (n - 1) o → Leaves (suc n - 1) o
fewer n (done r is) h = omega arith
fewer n endless h = tt

answer_or-Leaves :
    (n : ℕ) (b : Option Bool) (o : Outcome Bool) (is : Input)
    → length is ≤ n
    → Leaves n o
    → Leaves n (elim b as (λ _. Outcome Bool) [ some b ↦ done (ok b) is | none ↦ o ])
answer_or-Leaves n (some b) o is h l = h
answer_or-Leaves n none o is h l = l

pub get_string-Leaves : (t : Text) (is : Input) → Leaves (length is - 1) (get_string t is)
unfolding get_string
get_string-Leaves t [] = omega arith
get_string-Leaves t (ok l ∷ is) = omega arith
get_string-Leaves t (err e ∷ is) = omega arith

pub get_yn-Leaves : (t : Text) (is : Input) → Leaves (length is - 1) (get_yn t is)
unfolding get_yn
get_yn-Leaves t [] = answer_or-Leaves 0 (extract_yn t (t.trim "")) endless [] (omega arith) tt
get_yn-Leaves t (err e ∷ is) = omega arith
get_yn-Leaves t (ok l ∷ is) =
    answer_or-Leaves (suc (length is) - 1) (extract_yn t (t.trim l)) (get_yn t is) is (omega arith)
      (fewer (length is) (get_yn t is) (get_yn-Leaves t is))
