-- ===== src/Cli/Init/Address.antt =====
-- `init` of src/ebbflow.rs leaves the file of the daemon's address.
use ebbflow.Prelude.{◌≡◌, refl, ◌∙◌, String, Bool, true, false, [], Option, none, some}
use ebbflow.Prelude.Result.{Result, ok, err}
use ebbflow.Prelude.Bytes.{Bytes}
use ebbflow.Config.{Ssh, EbbflowDaemonConfig}
use ebbflow.Config.Files.{
  ConfigError, Yaml, Disk, setkey, save_to_file, open_or_create, check_permissions,
}
use ebbflow.Cli.{CliError}
use ebbflow.Cli.Console.{Input, Outcome, done, endless}
use ebbflow.Cli.Init.{
  Env, ask_ssh, init_config, finish, with_key, poll_key_creation, create_key_request, provision,
  used_name, after_questions, with_hostname, init_interactive, init_with_key, init,
}

save_to_file-addr :
    (yaml : Yaml) (c : EbbflowDaemonConfig) (d : Disk) (o : Option Bytes)
    → yaml.to_string c ≡ o
    → (save_to_file yaml c d).0.addr ≡ d.addr
unfolding save_to_file
save_to_file-addr yaml c d none e = rw (e, save_to_file) refl
save_to_file-addr yaml c d (some b) e = rw (e, save_to_file) refl

check_permissions-addr :
    (d : Disk) (r : Result ConfigError (Unit {0}))
    → (open_or_create [] d.config).1 ≡ r
    → (check_permissions d).0.addr ≡ d.addr
unfolding check_permissions
check_permissions-addr d (err e) r = rw (r, check_permissions) refl
check_permissions-addr d (ok u) r = rw (r, check_permissions) refl

module _ (env : Env) (yaml : Yaml) where
  finish-addr :
      (ssh : Option Ssh) (key : String) (d : Disk) (r : Result ConfigError (Unit {0}))
      → (setkey env.text.trim key d).1 ≡ r
      → (finish env yaml ssh key d).0.addr ≡ d.addr
  unfolding finish setkey
  finish-addr ssh key d (err e) r = rw (r, finish) refl
  finish-addr ssh key d (ok u) r =
      rw (r, finish)
        (save_to_file-addr yaml (init_config ssh) (setkey env.text.trim key d).0
          (yaml.to_string (init_config ssh)) refl)

  with_key-addr :
      (ssh : Option Ssh) (answer : Option (Result CliError String)) (d : Disk)
      → (with_key env yaml ssh answer d).0.addr ≡ d.addr
  unfolding with_key
  with_key-addr ssh none d = refl
  with_key-addr ssh (some (err e)) d = refl
  with_key-addr ssh (some (ok key)) d = finish-addr ssh key d (setkey env.text.trim key d).1 refl

  provision-addr :
      (ssh : Option Ssh) (request : Result CliError (String × String)) (d : Disk)
      → (provision env yaml ssh request d).0.addr ≡ d.addr
  unfolding provision
  provision-addr ssh (err e) d = refl
  provision-addr ssh (ok (url, id)) d = with_key-addr ssh (poll_key_creation (env.polled id)) d

  after_questions-addr :
      (own : String) (o : Outcome (Option Ssh)) (d : Disk)
      → (after_questions env yaml own o d).0.addr ≡ d.addr
  unfolding after_questions
  after_questions-addr own endless d = refl
  after_questions-addr own (done (err e) left) d = refl
  after_questions-addr own (done (ok ssh) left) d =
      provision-addr ssh (create_key_request env (used_name own ssh)) d

  with_hostname-addr :
      (is : Input) (name : Result String String) (d : Disk)
      → (with_hostname env yaml is name d).0.addr ≡ d.addr
  unfolding with_hostname
  with_hostname-addr is (err e) d = refl
  with_hostname-addr is (ok own) d = after_questions-addr own (ask_ssh env is) d

  init_interactive-addr :
      (is : Input) (d : Disk) (r : Result ConfigError (Unit {0}))
      → (check_permissions d).1 ≡ r
      → (init_interactive env yaml is d).0.addr ≡ d.addr
  unfolding init_interactive
  init_interactive-addr is d (err e) r =
      rw (r, init_interactive) (check_permissions-addr d (open_or_create [] d.config).1 refl)
  init_interactive-addr is d (ok u) r =
      rw (r, init_interactive)
        (with_hostname-addr is env.hostname (check_permissions d).0
          ∙ check_permissions-addr d (open_or_create [] d.config).1 refl)

  init_with_key-addr :
      (ebb_key : Option String) (d : Disk) → (init_with_key env ebb_key d).0.addr ≡ d.addr
  unfolding init_with_key setkey
  init_with_key-addr none d = refl
  init_with_key-addr (some k) d = refl

  init_with_key-config :
      (ebb_key : Option String) (d : Disk) → (init_with_key env ebb_key d).0.config ≡ d.config
  unfolding init_with_key setkey
  init_with_key-config none d = refl
  init_with_key-config (some k) d = refl

  pub init-addr :
      (non_interactive : Bool) (ebb_key : Option String) (is : Input) (d : Disk)
      → (init env yaml non_interactive ebb_key is d).0.addr ≡ d.addr
  unfolding init
  init-addr true ebb_key is d = init_with_key-addr ebb_key d
  init-addr false ebb_key is d = init_interactive-addr is d (check_permissions d).1 refl

  pub init-config :
      (ebb_key : Option String) (is : Input) (d : Disk)
      → (init env yaml true ebb_key is d).0.config ≡ d.config
  unfolding init
  init-config ebb_key is d = init_with_key-config ebb_key d
