-- ===== src/Cli/Init.antt =====
-- `init` of src/ebbflow.rs: it asks for the settings, has a key created and writes both files. The
-- name of the host, the pattern of a name and the http calls are parameters.
pub mod Answers
pub mod Ready
pub mod Enough
pub mod Address
use Prim.Native.String.{◌++◌ as str_append}
use ebbflow.Prelude.{
  ℕ, suc, zero, String, Bool, true, false, List, [], ◌∷◌, Option, none, some, length, unwrap_or,
  if◌then◌else◌,
}
use ebbflow.Prelude.Result.{Result, ok, err}
use ebbflow.Config.{Ssh, ssh_new, EbbflowDaemonConfig}
use ebbflow.Config.Files.{ConfigError, Yaml, Disk, check_permissions, setkey, save_to_file}
use ebbflow.Cli.{CliError, config_error, http, other, dies, returned}
use ebbflow.Cli.Console.{
  Input, Outcome, Dialogue, done, endless, then_ask, ◌>>=◌, return, Text, get_string, get_yn,
}

-- What a request for the key comes to: an http status, with what its body comes to if it is 200,
-- or a failure to send.
pub data Polled : Type 0 where
  status_ok : Result String String → Polled
  status_accepted status_not_found : Polled
  status_other : ℕ → Polled
  not_sent : String → Polled

-- `hostname` is the name of the host or the error that ends the process; `post_hostkeyinit` creates
-- the request, whose id the polling uses.
pub record Env : Type 0 where
  pub text : Text
  pub is_hostname : String → Bool
  pub hostname : Result String String
  pub post_hostkeyinit : String → Result String String
  pub polled : String → List Polled

module _ (env : Env) where
  unfoldable pub confirm_hostname : String → Dialogue (Option String)
  confirm_hostname name = do
    confirmed ← get_yn env.text
    return (if confirmed then some name else none)

  -- A round of the loop that asks until a name of the host is given and confirmed.
  unfoldable pub ask_round : Dialogue (Option String)
  unfolding confirm_hostname
  ask_round = do
    name ← get_string env.text
    if env.is_hostname name then confirm_hostname name else return none

  unfoldable pub ask_hostname : ℕ → Dialogue String
  unfolding ask_round
  ask_hostname zero is = endless
  ask_hostname (suc fuel) is =
      then_ask (ask_round is)
        (λ name is'. elim name [ some n ↦ return n is' | none ↦ ask_hostname fuel is' ])

  -- A round takes a line unless the input is at its end, so this fuel is enough (Cli/Init/Enough).
  unfoldable pub hostname_loop : Dialogue String
  unfolding ask_hostname
  hostname_loop is = ask_hostname (suc (length is)) is

  -- The name of the host, if another than its own was chosen.
  unfoldable pub choose_hostname : Dialogue (Option String)
  unfolding hostname_loop
  choose_hostname = do
    own ← get_yn env.text
    if own then return none else (hostname_loop >>= λ name. return (some name))

  unfoldable pub ask_ssh : Dialogue (Option Ssh)
  unfolding choose_hostname
  ask_ssh = do
    enablessh ← get_yn env.text
    if enablessh
        then (choose_hostname >>= λ hostname. return (some (ssh_new enablessh hostname)))
        else return none

-- The loop that waits for the key; without a last answer it goes on for ever.
unfoldable pub poll_key_creation : List Polled → Option (Result CliError String)
poll_key_creation [] = none
poll_key_creation (status_ok (ok key) ∷ ps) = some (ok key)
poll_key_creation (status_ok (err e) ∷ ps) = some (err (http e))
poll_key_creation (status_accepted ∷ ps) = poll_key_creation ps
poll_key_creation (status_not_found ∷ ps) = poll_key_creation ps
poll_key_creation (status_other n ∷ ps) = poll_key_creation ps
poll_key_creation (not_sent e ∷ ps) = poll_key_creation ps

-- The address to show and the id of the request.
unfoldable pub create_key_request : Env → String → Result CliError (String × String)
create_key_request env hostname = elim (env.post_hostkeyinit hostname) [
  | err e ↦ err (http e)
  | ok id ↦ ok (str_append "https://ebbflow.io/init/" id, id)
]

abbrev pub init_config : Option Ssh → EbbflowDaemonConfig
init_config ssh = record { endpoints = []; ssh = ssh; loglevel = none }

-- What follows the creation of the key.
unfoldable pub finish : Env → Yaml → Option Ssh → String → Disk → Disk × Result CliError (Unit {0})
unfolding setkey returned
finish env yaml ssh key d =
    let (d', r) = setkey env.text.trim key d in
    let (d'', r') = save_to_file yaml (init_config ssh) d' in
    elim r [ err e ↦ (d', err (config_error e)) | ok u ↦ (d'', returned tt r') ]

-- `none` is that it goes on for ever, here and below.
unfoldable pub with_key :
    Env
    → Yaml
    → Option Ssh
    → Option (Result CliError String)
    → Disk
    → Disk × Option (Result CliError (Unit {0}))
unfolding finish
with_key env yaml ssh none d = (d, none)
with_key env yaml ssh (some (err e)) d = (d, some (err e))
with_key env yaml ssh (some (ok key)) d = let (d', r) = finish env yaml ssh key d in (d', some r)

unfoldable pub provision :
    Env
    → Yaml
    → Option Ssh
    → Result CliError (String × String)
    → Disk
    → Disk × Option (Result CliError (Unit {0}))
unfolding poll_key_creation with_key
provision env yaml ssh (err e) d = (d, some (err e))
provision env yaml ssh (ok (url, id)) d =
    with_key env yaml ssh (poll_key_creation (env.polled id)) d

-- `hostname.unwrap_or_else`; the name that was chosen is kept in the settings.
unfoldable pub used_name : String → Option Ssh → String
used_name own none = own
used_name own (some s) = unwrap_or s.hostname_override own

unfoldable pub after_questions :
    Env → Yaml → String → Outcome (Option Ssh) → Disk → Disk × Option (Result CliError (Unit {0}))
unfolding provision used_name create_key_request
after_questions env yaml own (done (ok ssh) is) d =
    provision env yaml ssh (create_key_request env (used_name own ssh)) d
after_questions env yaml own (done (err e) is) d = (d, some (err e))
after_questions env yaml own endless d = (d, none)

-- `hostname_or_die`, then the questions.
unfoldable pub with_hostname :
    Env → Yaml → Input → Result String String → Disk → Disk × Option (Result CliError (Unit {0}))
unfolding ask_ssh after_questions
with_hostname env yaml is (err e) d = (d, some (err (dies e)))
with_hostname env yaml is (ok own) d = after_questions env yaml own (ask_ssh env is) d

unfoldable pub init_interactive :
    Env → Yaml → Input → Disk → Disk × Option (Result CliError (Unit {0}))
unfolding with_hostname
init_interactive env yaml is d =
    let (d', r) = check_permissions d in
    elim r [
      | err e ↦ (d', some (err (config_error e)))
      | ok u ↦ with_hostname env yaml is env.hostname d'
    ]

abbrev no_key : String
no_key = "Environment variable EBB_KEY not provided, required for non-interactive init"

-- The two trims are the source's.
unfoldable pub init_with_key : Env → Option String → Disk → Disk × Result CliError (Unit {0})
unfolding setkey returned
init_with_key env none d = (d, err (other no_key))
init_with_key env (some k) d =
    let (d', r) = setkey env.text.trim (env.text.trim k) d in (d', returned tt r)

-- `ebb_key` is the environment's variable.
unfoldable pub init :
    Env → Yaml → Bool → Option String → Input → Disk → Disk × Option (Result CliError (Unit {0}))
unfolding init_with_key init_interactive
init env yaml true ebb_key is d = let (d', r) = init_with_key env ebb_key d in (d', some r)
init env yaml false ebb_key is d = init_interactive env yaml is d
