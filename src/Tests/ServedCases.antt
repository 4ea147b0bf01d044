-- ===== src/Tests/ServedCases.antt =====
-- Endpoints that are added, removed and disabled, and what the daemon serves then.
use ebbflow.Prelude.{◌≡◌, refl, ◌∙◌, some, none, false, [], ◌∷◌}
use ebbflow.Prelude.Result.{ok}
use ebbflow.Prelude.Map.{lookup}
use ebbflow.Config.Files.{
  Disk, load_from_file_or_new, load_from_file, load_from_file_path, or_new, read, parsed,
  config_or_none, getkey, key_or_none, save_to_file, write,
}
use ebbflow.Runner.Wanted.{serving}
use ebbflow.Cli.{
  RemoveEndpointArgs, remove_endpoint, retain_others, set_endpoint_enabled, set_enabled, set_one,
  with_existing, save_and_return, returned,
}
use ebbflow.Config.{endpoint_eq}
use ebbflow.Runner.{contains}
use ebbflow.Served.Removed.{Reach-remove_endpoint}
use ebbflow.Served.Switched.{Reach-enable_disable}
use ebbflow.Reload.{
  Daemon, waiting, begin, advance, after_config, after_key, applied, Reach, here, next, internal,
  loop,
}
use ebbflow.Reload.Reflects.{pending, any_mutation}
use ebbflow.Cli.Settings.{
  endpoint, EnableDisableArgs, enabledisable, handle_enable_disable_ret, enable_disable,
}
use ebbflow.Tests.CliCases.{
  yaml, yaml-IsLawfulYaml, trim, disk, encode, decode, endpoint_on, with_endpoint,
}
use ebbflow.Tests.Fixtures.{sample_host}
use ebbflow.Tests.ReloadCases.{step, debug, disk_keyed}

abbrev before : Disk
before = record disk { key = record disk.key { content = some " k " } }

-- A daemon that starts on these files, up to its first wait.
abbrev booted : Disk → Daemon
booted d = step (step (step (begin d)))

abbrev removal : RemoveEndpointArgs
removal = record { dns = "b.example"; idempotent = false }

abbrev disk_gone : Disk
disk_gone = record disk_keyed { config = record disk_keyed.config { content = some (0 ∷ []) } }

removes : remove_endpoint yaml removal disk_keyed ≡ (disk_gone, ok tt)
unfolding remove_endpoint with_existing load_from_file_or_new load_from_file load_from_file_path
    or_new read parsed decode retain_others save_and_return save_to_file write encode returned
removes = refl

abbrev disk_off : Disk
disk_off = record disk_keyed { config = record disk_keyed.config { content = some (2 ∷ []) } }

abbrev disabling : EnableDisableArgs
disabling = record { target = endpoint "b.example"; idempotent = false }

disables : enable_disable yaml false disabling disk_keyed ≡ (disk_off, ok tt)
unfolding enable_disable enabledisable set_endpoint_enabled set_enabled set_one
    handle_enable_disable_ret with_existing load_from_file_or_new load_from_file load_from_file_path
    or_new read parsed decode save_and_return save_to_file write encode returned endpoint_eq
disables = refl

loads_one : load_from_file_or_new yaml disk_keyed ≡ ok (with_endpoint endpoint_on)
unfolding load_from_file_or_new load_from_file load_from_file_path or_new read parsed decode
loads_one = refl

one_key : key_or_none (getkey trim disk_keyed) ≡ ok (some "k")
unfolding key_or_none getkey read trim
one_key = refl

boots_off : Reach yaml trim debug (begin disk_off) (booted disk_off)
unfolding begin advance after_config after_key config_or_none load_from_file load_from_file_path
    read parsed decode key_or_none getkey trim
boots_off =
    next
      (next (next here (internal (loop sample_host (λ w. cc w))))
        (internal (loop sample_host (λ w. cc w))))
      (internal (loop sample_host (λ w. cc w)))

boots_gone : Reach yaml trim debug (begin disk_gone) (booted disk_gone)
unfolding begin advance after_config after_key config_or_none load_from_file load_from_file_path
    read parsed decode key_or_none getkey trim
boots_gone =
    next
      (next (next here (internal (loop sample_host (λ w. cc w))))
        (internal (loop sample_host (λ w. cc w))))
      (internal (loop sample_host (λ w. cc w)))

rests :
    ((booted disk_gone).phase ≡ waiting)
    × (pending (booted disk_gone) ≡ false)
    × ((booted disk_gone).disk ≡ disk_gone)
    × ((booted disk_off).phase ≡ waiting)
    × (pending (booted disk_off) ≡ false)
    × ((booted disk_off).disk ≡ disk_off)
unfolding begin advance pending any_mutation after_config after_key config_or_none load_from_file
    load_from_file_path read parsed decode key_or_none getkey trim applied
rests = (refl, refl, refl, refl, refl, refl)

Reach-remove_endpoint_example :
    serving
      (booted disk_gone).runner.world.metas
      (lookup "b.example" (booted disk_gone).runner.endpoints)
    ≡ none
Reach-remove_endpoint_example =
    Reach-remove_endpoint yaml trim debug removal disk_keyed disk_gone (with_endpoint endpoint_on)
      "k" yaml-IsLawfulYaml loads_one refl one_key (rw removes refl) boots_gone rests.0 rests.1
      (rests.2 ∙ rw removes refl) "b.example"

Reach-enable_disable_example :
    serving
      (booted disk_off).runner.world.metas
      (lookup "b.example" (booted disk_off).runner.endpoints)
    ≡ none
unfolding contains
Reach-enable_disable_example =
    Reach-enable_disable yaml trim debug false false "b.example" disk_keyed disk_off
      (with_endpoint endpoint_on) "k" yaml-IsLawfulYaml loads_one (refl, tt) refl one_key
      (rw disables refl) boots_off rests.3 rests.4 (rests.5 ∙ rw disables refl) "b.example"
