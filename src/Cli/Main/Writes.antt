-- ===== src/Cli/Main/Writes.antt =====
-- Which files of src/config.rs the subcommands of src/ebbflow.rs write.
use ebbflow.Prelude.{◌≡◌, refl, Bool, true, false, Option, none, some, if◌then◌else◌, ◌||◌}
use ebbflow.Prelude.Result.{Result, ok, err}
use ebbflow.Prelude.Bytes.{Bytes}
use ebbflow.Config.{EbbflowDaemonConfig}
use ebbflow.Config.Files.{Yaml, Disk, ConfigError, load_from_file_or_new, save_to_file}
use ebbflow.Cli.{
  CliError, with_existing, save_and_return, AddEndpointArgs, add_endpoint, RemoveEndpointArgs,
  remove_endpoint, set_endpoint_enabled, clash, retain_others,
}
use ebbflow.Cli.Settings.{
  EnableDisableTarget, ssh, all_endpoints, endpoint, enable_disable, enabledisable, set_ssh_enabled,
  SetupSshArgs, setup_ssh, remove_ssh, setloglevel,
}
use ebbflow.Cli.Init.Address.{init-addr, init-config}
use ebbflow.Cli.Main.{
  SubCommand, enable, disable, add, remove, print, setup, remove_ssh_configuration, log_level,
  initialize, block, get_status, World, main,
}

-- The key and the address are those of the other disk.
abbrev pub Keeps : Disk → Disk → Type 0
Keeps d d' = (d'.key ≡ d.key) × (d'.addr ≡ d.addr)

saved-Keeps :
    (yaml : Yaml) (c : EbbflowDaemonConfig) (d : Disk) (o : Option Bytes)
    → yaml.to_string c ≡ o
    → Keeps d (save_to_file yaml c d).0
unfolding save_to_file
saved-Keeps yaml c d none e = rw (e, save_to_file) (refl, refl)
saved-Keeps yaml c d (some b) e = rw (e, save_to_file) (refl, refl)

save_to_file-Keeps :
    (yaml : Yaml) (d : Disk) (c : EbbflowDaemonConfig) → Keeps d (save_to_file yaml c d).0
save_to_file-Keeps yaml d c = saved-Keeps yaml c d (yaml.to_string c) refl

module _ {A : Type 0} (yaml : Yaml) (d : Disk) where
  existing-Keeps :
      (r : Result ConfigError EbbflowDaemonConfig)
      (k : EbbflowDaemonConfig → Disk × Result CliError A)
      → load_from_file_or_new yaml d ≡ r
      → ((c : EbbflowDaemonConfig) → Keeps d (k c).0)
      → Keeps d (with_existing yaml d k).0
  unfolding with_existing
  existing-Keeps (err e) k l h = rw (l, with_existing) (refl, refl)
  existing-Keeps (ok c) k l h = rw (l, with_existing) (h c)

  with_existing-Keeps :
      (k : EbbflowDaemonConfig → Disk × Result CliError A)
      → ((c : EbbflowDaemonConfig) → Keeps d (k c).0)
      → Keeps d (with_existing yaml d k).0
  with_existing-Keeps k h = existing-Keeps (load_from_file_or_new yaml d) k refl h

module _ {A B : Type 0} (d : Disk) where
  option-Keeps :
      (o : Option B) (f : B → Disk × A) (r : Disk × A)
      → ((b : B) → Keeps d (f b).0)
      → Keeps d r.0
      → Keeps d (elim o as (λ _. Disk × A) [ some b ↦ f b | none ↦ r ]).0
  option-Keeps (some b) f r h h' = h b
  option-Keeps none f r h h' = h'

module _ {A : Type 0} (d : Disk) where
  if-Keeps :
      (b : Bool) (x y : Disk × A) → Keeps d x.0 → Keeps d y.0 → Keeps d (if b then x else y).0
  if-Keeps true x y h h' = h
  if-Keeps false x y h h' = h'

pub add_endpoint-Keeps :
    (yaml : Yaml) (args : AddEndpointArgs) (d : Disk) → Keeps d (add_endpoint yaml args d).0
unfolding add_endpoint save_and_return
add_endpoint-Keeps yaml args d = with_existing-Keeps yaml d _ (λ c.
    option-Keeps d (clash args.dns c.endpoints) _ _ (λ dns. (refl, refl))
      (save_to_file-Keeps yaml d _))

pub remove_endpoint-Keeps :
    (yaml : Yaml) (args : RemoveEndpointArgs) (d : Disk) → Keeps d (remove_endpoint yaml args d).0
unfolding remove_endpoint save_and_return
remove_endpoint-Keeps yaml args d = with_existing-Keeps yaml d _ (λ c.
    if-Keeps d ((retain_others args.dns c.endpoints).1 || args.idempotent) _ _
      (save_to_file-Keeps yaml d _) (refl, refl))

pub enabledisable-Keeps :
    (yaml : Yaml) (on : Bool) (target : EnableDisableTarget) (d : Disk)
    → Keeps d (enabledisable yaml on target d).0
unfolding enabledisable set_ssh_enabled set_endpoint_enabled save_and_return
enabledisable-Keeps yaml on ssh d = with_existing-Keeps yaml d _ (λ c. save_to_file-Keeps yaml d _)
enabledisable-Keeps yaml on all_endpoints d =
    with_existing-Keeps yaml d _ (λ c. save_to_file-Keeps yaml d _)
enabledisable-Keeps yaml on (endpoint dns) d =
    with_existing-Keeps yaml d _ (λ c. save_to_file-Keeps yaml d _)

pub setup_ssh-Keeps :
    (yaml : Yaml) (args : SetupSshArgs) (d : Disk) → Keeps d (setup_ssh yaml args d).0
unfolding setup_ssh save_and_return
setup_ssh-Keeps yaml args d =
    with_existing-Keeps yaml d _
      (λ c. option-Keeps d c.ssh _ _ (λ old. (refl, refl)) (save_to_file-Keeps yaml d _))

-- What a subcommand may do to the files.
abbrev pub IsAllowed : SubCommand → Disk → Disk → Type 0
IsAllowed print d d' = d' ≡ d
IsAllowed (block args) d d' = d' ≡ d
IsAllowed get_status d d' = d' ≡ d
IsAllowed (initialize true) d d' = (d'.addr ≡ d.addr) × (d'.config ≡ d.config)
IsAllowed (initialize false) d d' = d'.addr ≡ d.addr
IsAllowed cmd d d' = Keeps d d'

-- Whatever a subcommand comes to: printing the configuration, `status` and `run-blocking` change no
-- file, `init` does not change the daemon's address, nor the configuration if it is not interactive,
-- and the others change neither the key nor the address.
pub main-IsAllowed :
    {A : Type 0} (w : World A) (cmd : SubCommand) (d : Disk) → IsAllowed cmd d (main w cmd d).0
unfolding main enable_disable remove_ssh setloglevel save_and_return
main-IsAllowed w (enable args) d = enabledisable-Keeps w.yaml true args.target d
main-IsAllowed w (disable args) d = enabledisable-Keeps w.yaml false args.target d
main-IsAllowed w (add args) d = add_endpoint-Keeps w.yaml args d
main-IsAllowed w (remove args) d = remove_endpoint-Keeps w.yaml args d
main-IsAllowed w print d = refl
main-IsAllowed w (setup args) d = setup_ssh-Keeps w.yaml args d
main-IsAllowed w remove_ssh_configuration d =
    with_existing-Keeps w.yaml d _ (λ c. save_to_file-Keeps w.yaml d _)
main-IsAllowed w (log_level level) d =
    with_existing-Keeps w.yaml d _ (λ c. save_to_file-Keeps w.yaml d _)
main-IsAllowed w (initialize true) d =
    (init-addr w.env w.yaml true w.ebb_key w.input d, init-config w.env w.yaml w.ebb_key w.input d)
main-IsAllowed w (initialize false) d = init-addr w.env w.yaml false w.ebb_key w.input d
main-IsAllowed w (block args) d = refl
main-IsAllowed w get_status d = refl
