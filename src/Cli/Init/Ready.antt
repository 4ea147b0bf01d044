-- ===== src/Cli/Init/Ready.antt =====
-- A successful `init` leaves files that the daemon can start from.
use ebbflow.Prelude.{
  subst, ◌≡◌, [], refl, ◌∙◌, String, Option, none, some, str_eq, Bool-cases, inl, inr,
  if◌then◌else◌,
}
use ebbflow.Prelude.Result.{Result, ok, err}
use ebbflow.Config.{Ssh}
use ebbflow.Config.Files.{
  empty, ConfigError, ErrorKind, Yaml, File, Disk, setkey, save_to_file, config_or_none,
  key_or_none, config_reload, check_permissions, open_or_create,
}
use ebbflow.Config.SaveLoad.{IsLawfulYaml, load-save_to_file, getkey-setkey, save-getkey}
use ebbflow.Cli.{CliError, returned}
use ebbflow.Cli.Console.{Input, Outcome, done, endless}
use ebbflow.Cli.Init.Answers.{
  IsChosen, IsSettled, ask_ssh-IsSettled, IsAwaited, poll_key_creation-IsAwaited,
}
use ebbflow.Cli.Init.{
  Env, ask_ssh, poll_key_creation, create_key_request, init_config, used_name, finish, with_key,
  provision, after_questions, with_hostname, init_interactive,
}

-- The key as the daemon reads it.
unfoldable pub read_key : String → Option String
read_key k = if str_eq k "" then none else some k

read_key-key_or_none :
    (k : String) → key_or_none (if str_eq k "" then err empty else ok k) ≡ ok (read_key k)
unfolding read_key key_or_none
read_key-key_or_none k = elim (Bool-cases (str_eq k "")) [
  | inl blank ↦ rw blank refl
  | inr filled ↦ rw filled refl
]

returned-eq_ok :
    (r : Result ConfigError (Unit {0})) → returned {A = Unit {0}} tt r ≡ ok tt → r ≡ ok tt
unfolding returned
returned-eq_ok (ok u) h = refl
returned-eq_ok (err e) h = cc h

-- The files can be read after they were opened as before.
open-readable :
    {A : Type 0} (blank : A) (f : File A) (w : Option ErrorKind) (c : Option A)
    → f.write_error ≡ w
    → f.content ≡ c
    → (open_or_create blank f).0.read_error ≡ f.read_error
unfolding open_or_create
open-readable blank f none (some b) w c = rw (w, open_or_create) (rw (c, open_or_create) refl)
open-readable blank f none none w c = rw (w, open_or_create) (rw (c, open_or_create) refl)
open-readable blank f (some e) c w h = rw (w, open_or_create) refl

check-readable :
    (d : Disk) (o : Result ConfigError (Unit {0}))
    → (open_or_create [] d.config).1 ≡ o
    → ((check_permissions d).0.config.read_error ≡ d.config.read_error)
      × ((check_permissions d).0.key.read_error ≡ d.key.read_error)
unfolding check_permissions
check-readable d (err e) o = (
  rw (o, check_permissions)
      (open-readable [] d.config d.config.write_error d.config.content refl refl),
  rw (o, check_permissions) refl,
)
check-readable d (ok u) o = (
  rw (o, check_permissions)
      (open-readable [] d.config d.config.write_error d.config.content refl refl),
  rw (o, check_permissions) (open-readable "" d.key d.key.write_error d.key.content refl refl),
)

module _ (env : Env) (yaml : Yaml)
    (twice : (s : String) → env.text.trim (env.text.trim s) ≡ env.text.trim s)
    (lawful : IsLawfulYaml yaml) where
  read-back :
      (ssh : Option Ssh) (key : String) (d : Disk)
      → d.config.read_error ≡ none
      → d.key.read_error ≡ none
      → (setkey env.text.trim key d).1 ≡ ok tt
      → (save_to_file yaml (init_config ssh) (setkey env.text.trim key d).0).1 ≡ ok tt
      → config_reload yaml env.text.trim
          (save_to_file yaml (init_config ssh) (setkey env.text.trim key d).0).0
        ≡ ok (some (init_config ssh), read_key (env.text.trim key))
  unfolding config_reload config_or_none setkey
  read-back ssh key d config_readable key_readable set saved =
      let d' = (setkey env.text.trim key d).0 in
      rw (load-save_to_file yaml (init_config ssh) d' lawful config_readable saved) (
        rw
          (save-getkey env.text.trim yaml (init_config ssh) d'
            ∙ getkey-setkey env.text.trim key d (twice key) key_readable set)
          (rw (read_key-key_or_none (env.text.trim key)) refl))

  finished :
      (ssh : Option Ssh) (key : String) (d : Disk) (o : Result ConfigError (Unit {0}))
      → (setkey env.text.trim key d).1 ≡ o
      → d.config.read_error ≡ none
      → d.key.read_error ≡ none
      → (finish env yaml ssh key d).1 ≡ ok tt
      → config_reload yaml env.text.trim (finish env yaml ssh key d).0
        ≡ ok (some (init_config ssh), read_key (env.text.trim key))
  unfolding finish
  finished ssh key d (err e) set config_readable key_readable h = cc (rw (set, finish) at h)
  finished ssh key d (ok u) set config_readable key_readable h =
      rw (set, finish)
        (read-back ssh key d config_readable key_readable set (
          returned-eq_ok (save_to_file yaml (init_config ssh) (setkey env.text.trim key d).0).1
            (rw (set, finish) at h)))

  -- What the daemon reads from the two files.
  abbrev pub IsRead : Option Ssh → String → Disk → Type 0
  IsRead ssh key d =
      config_reload yaml env.text.trim d
      ≡ ok (
        some (record { endpoints = []; ssh = ssh; loglevel = none }),
        (if str_eq (env.text.trim key) "" then none else some (env.text.trim key)),
      )

  with_key-IsRead :
      (ssh : Option Ssh) (answer : Option (Result CliError String)) (d : Disk)
      → d.config.read_error ≡ none
      → d.key.read_error ≡ none
      → (with_key env yaml ssh answer d).1 ≡ some (ok tt)
      → (key : String) × (answer ≡ some (ok key))
        × IsRead ssh key (with_key env yaml ssh answer d).0
  unfolding with_key read_key
  with_key-IsRead ssh none d c k h = cc h
  with_key-IsRead ssh (some (err e)) d c k h = cc h
  with_key-IsRead ssh (some (ok key)) d c k h =
      (key, refl, finished ssh key d (setkey env.text.trim key d).1 refl c k (cc h))

  -- The dialogue chose `ssh` and the request of a key was answered with `key`.
  abbrev pub IsProvisioned : Option Ssh → String → String → Disk → Type 0
  IsProvisioned ssh usedname key d =
      (id : String) × (env.post_hostkeyinit usedname ≡ ok id)
      × IsAwaited (env.polled id) key
      × IsRead ssh key d

  provisioned :
      (ssh : Option Ssh) (usedname : String) (d : Disk) (o : Result String String)
      → env.post_hostkeyinit usedname ≡ o
      → d.config.read_error ≡ none
      → d.key.read_error ≡ none
      → (provision env yaml ssh (create_key_request env usedname) d).1 ≡ some (ok tt)
      → (key : String) × IsProvisioned ssh usedname key
          (provision env yaml ssh (create_key_request env usedname) d).0
  unfolding provision create_key_request
  provisioned ssh usedname d (err e) o c k h = cc (rw (o, create_key_request) at h)
  provisioned ssh usedname d (ok id) o c k h =
      let (key, answered, is_read) =
        with_key-IsRead ssh (poll_key_creation (env.polled id)) d c k
          (rw (o, create_key_request) at h) in
      (
        key,
        (
          id,
          o,
          poll_key_creation-IsAwaited (env.polled id) key answered,
          rw (o, create_key_request) is_read,
        ),
      )

  abbrev pub IsInitialized : Input → Disk → Type 0
  IsInitialized is d =
      (own : String) × (ssh : Option Ssh) × (name : String) × (left : Input) × (key : String)
      × (env.hostname ≡ ok own)
      × IsChosen env own is ssh name left
      × IsProvisioned ssh name key d

  asked :
      (own : String) (is : Input) (d : Disk) (o : Outcome (Option Ssh))
      → env.hostname ≡ ok own
      → ask_ssh env is ≡ o
      → d.config.read_error ≡ none
      → d.key.read_error ≡ none
      → (after_questions env yaml own o d).1 ≡ some (ok tt)
      → IsInitialized is (after_questions env yaml own o d).0
  unfolding after_questions
  asked own is d endless n a c k h = cc h
  asked own is d (done (err e) left) n a c k h = cc h
  asked own is d (done (ok ssh) left) n a c k h =
      let (key, p) =
        provisioned ssh (used_name own ssh) d (env.post_hostkeyinit (used_name own ssh)) refl c k
          h in
      let chosen = subst (IsSettled env own is) a (ask_ssh-IsSettled env own is) in
      (own, ssh, used_name own ssh, left, key, n, chosen, p)

  named :
      (is : Input) (d : Disk) (name : Result String String)
      → env.hostname ≡ name
      → d.config.read_error ≡ none
      → d.key.read_error ≡ none
      → (with_hostname env yaml is name d).1 ≡ some (ok tt)
      → IsInitialized is (with_hostname env yaml is name d).0
  unfolding with_hostname
  named is d (err e) n c k h = cc h
  named is d (ok own) n c k h = asked own is d (ask_ssh env is) n refl c k h

  opened :
      (is : Input) (d : Disk) (r : Result ConfigError (Unit {0}))
      → (check_permissions d).1 ≡ r
      → d.config.read_error ≡ none
      → d.key.read_error ≡ none
      → (init_interactive env yaml is d).1 ≡ some (ok tt)
      → IsInitialized is (init_interactive env yaml is d).0
  unfolding init_interactive
  opened is d (err e) r c k h = cc (rw (r, init_interactive) at h)
  opened is d (ok u) r c k h =
      let same = check-readable d (open_or_create [] d.config).1 refl in
      rw (r, init_interactive)
        (named is (check_permissions d).0 env.hostname refl (same.0 ∙ c) (same.1 ∙ k)
          (rw (r, init_interactive) at h))

  -- If both files can be read, serde_yaml reads back what it writes and trimming twice trims once,
  -- an interactive `init` that ends well has been answered that SSH is not wanted, or that it is,
  -- with the host's own name or with a name that is one of a host and was confirmed; it has waited
  -- for a key for that name, the host's own if there is no SSH; and it has left files from which the
  -- daemon reads no endpoints, SSH as it was answered, with 20 connections, 5 idle ones and port 22,
  -- or without it, and that key trimmed, or none if nothing is left of it.
  pub init_interactive-IsInitialized :
      (is : Input) (d : Disk)
      → d.config.read_error ≡ none
      → d.key.read_error ≡ none
      → (init_interactive env yaml is d).1 ≡ some (ok tt)
      → IsInitialized is (init_interactive env yaml is d).0
  init_interactive-IsInitialized is d c k h = opened is d (check_permissions d).1 refl c k h
