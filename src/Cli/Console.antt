-- ===== src/Cli/Console.antt =====
-- The prompts of src/ebbflow.rs: `get_string`, `get_yn` and `extract_yn`. The standard input is the
-- lines that reading it comes to; after them it is at its end, where reading gives an empty text.
-- `trim` and `to_lowercase` are parameters.
pub mod Ends
use ebbflow.Prelude.{
  String, Bool, true, false, ◌||◌, List, [], ◌∷◌, Option, none, some, str_eq, if◌then◌else◌,
}
use ebbflow.Prelude.Result.{Result, ok, err}
use ebbflow.Cli.{CliError, std_io_error}

-- What reading a line comes to; an error is known by its text.
abbrev pub Input : Type 0
Input = List (Result String String)

-- A dialogue comes to a result, and leaves an input, or goes on for ever.
pub data Outcome (A : Type 0) : Type 0 where
  done : Result CliError A → Input → Outcome A
  endless : Outcome A

abbrev pub Dialogue : Type 0 → Type 0
Dialogue A = Input → Outcome A

-- `?` between the steps of a dialogue.
abbrev pub then_ask : {A B : Type 0} → Outcome A → (A → Dialogue B) → Outcome B
then_ask (done (ok a) is) f = f a is
then_ask (done (err e) is) f = done (err e) is
then_ask endless f = endless

infixl 5 ◌>>=◌
abbrev pub ◌>>=◌ : {A B : Type 0} → Dialogue A → (A → Dialogue B) → Dialogue B
(m >>= f) is = then_ask (m is) f

abbrev pub return : {A : Type 0} → A → Dialogue A
return a is = done (ok a) is

pub record Text : Type 0 where
  pub trim : String → String
  pub to_lowercase : String → String

unfoldable pub get_string : Text → Dialogue String
get_string t [] = done (ok (t.trim "")) []
get_string t (ok line ∷ is) = done (ok (t.trim line)) is
get_string t (err e ∷ is) = done (err (std_io_error e)) is

unfoldable pub yes_or_no : String → Option Bool
yes_or_no s =
    if str_eq s "y" || str_eq s "yes"
    then some true
    else if str_eq s "n" || str_eq s "no"
    then some false
    else none

unfoldable pub extract_yn : Text → String → Option Bool
unfolding yes_or_no
extract_yn t yn = yes_or_no (t.trim (t.to_lowercase yn))

-- At the end of the input each round reads the same text.
unfoldable pub get_yn : Text → Dialogue Bool
unfolding extract_yn
get_yn t [] = elim (extract_yn t (t.trim "")) [ some b ↦ done (ok b) [] | none ↦ endless ]
get_yn t (err e ∷ is) = done (err (std_io_error e)) is
get_yn t (ok line ∷ is) =
    let rest = get_yn t is in
    elim (extract_yn t (t.trim line)) [ some b ↦ done (ok b) is | none ↦ rest ]
