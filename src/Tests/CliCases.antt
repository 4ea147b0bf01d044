-- ===== src/Tests/CliCases.antt =====
-- The configuration file and the subcommands that change it, on a disk that can be written.
use ebbflow.Prelude.{
  ◌≡◌, refl, Bool, true, false, String, List, [], ◌∷◌, Option, none, some, str_eq, if◌then◌else◌,
  Bool-cases, inl, inr, ◌==◌, ℕ, subst, sym, ap, ◌∙◌,
}
use ebbflow.Prelude.Result.{ok}
use ebbflow.Prelude.Bytes.{Bytes}
use ebbflow.Config.{Endpoint, EbbflowDaemonConfig, Ssh, endpoint_eq, Endpoint-eq_iff}
use ebbflow.Config.Files.{
  Yaml, PossiblyEmptyEbbflowDaemonConfig, ebbflow_daemon_config, Disk, no_config, load_from_file,
  load_from_file_path, load_from_file_or_new, or_new, save_to_file, read, write, parsed, from_io,
}
use ebbflow.Config.SaveLoad.{IsLawfulYaml}
use ebbflow.Cli.{
  AddEndpointArgs, new_endpoint, healthcheck_of, add_endpoint, clash, RemoveEndpointArgs,
  remove_endpoint, retain_others, set_endpoint_enabled, set_enabled, set_one, with_existing,
  save_and_return, returned,
}
use ebbflow.Cli.Endpoints.{add_endpoint-eq_ok}
use ebbflow.Cli.Removing.{remove-add_endpoint}
use ebbflow.Cli.Enabling.{set_all_enabled-eq_ok}

abbrev pub args : AddEndpointArgs
args = record {
  dns = "b.example";
  port = 80;
  maxconns = none;
  maxidle = none;
  disabled = false;
  healthcheck_port = none;
  healthcheck_consider_healthy = none;
  healthcheck_consider_unhealthy = none;
  healthcheck_frequency_secs = none;
}

abbrev pub endpoint_on : Endpoint
endpoint_on = record {
  port = 80;
  dns = "b.example";
  maxconns = 5000;
  maxidle = 40;
  enabled = true;
  healthcheck = none;
}

abbrev pub with_endpoint : Endpoint → EbbflowDaemonConfig
with_endpoint e = record no_config { endpoints = e ∷ [] }

-- The text of three configurations is known: one byte each.
unfoldable pub encode : List Endpoint → Option Ssh → Option String → Option Bytes
encode [] none none = some (0 ∷ [])
encode (e ∷ []) none none =
    if endpoint_eq e endpoint_on
    then some (1 ∷ [])
    else if endpoint_eq e (record endpoint_on { enabled = false })
    then some (2 ∷ [])
    else none
encode _ _ _ = none

unfoldable pub decode : Bytes → Option PossiblyEmptyEbbflowDaemonConfig
decode [] = none
decode (n ∷ rest) =
    if n == 0
    then some (ebbflow_daemon_config no_config)
    else if n == 1
    then some (ebbflow_daemon_config (with_endpoint endpoint_on))
    else some (ebbflow_daemon_config (with_endpoint (record endpoint_on { enabled = false })))

abbrev pub yaml : Yaml
yaml = record { from_slice = decode; to_string = λ c. encode c.endpoints c.ssh c.loglevel }

decodes :
    (b c : Bytes) (r : Option PossiblyEmptyEbbflowDaemonConfig)
    → ◌≡◌ {A = Option Bytes} (some c) (some b)
    → decode c ≡ r
    → decode b ≡ r
decodes b c r h e = subst (λ x. decode x ≡ r) (cc h) e

-- A configuration with one endpoint that is known.
one_endpoint :
    (e f : Endpoint) (n : ℕ)
    → endpoint_eq e f ≡ true
    → decode (n ∷ []) ≡ some (ebbflow_daemon_config (with_endpoint f))
    → decode (n ∷ []) ≡ some (ebbflow_daemon_config (with_endpoint e))
one_endpoint e f n same d =
    d
    ∙ ap (λ x. some (ebbflow_daemon_config (with_endpoint x))) (sym ((Endpoint-eq_iff e f).0 same))

decode-encode :
    (es : List Endpoint) (ssh : Option Ssh) (level : Option String) (b : Bytes)
    → encode es ssh level ≡ some b
    → decode b
      ≡ some (ebbflow_daemon_config (record { endpoints = es; ssh = ssh; loglevel = level }))
unfolding encode decode
decode-encode [] none none b h = decodes b (0 ∷ []) _ h refl
decode-encode (e ∷ []) none none b h = elim (Bool-cases (endpoint_eq e endpoint_on)) [
  | inl on ↦ decodes b (1 ∷ []) _ (rw (on, encode) at h) (one_endpoint e endpoint_on 1 on refl)
  | inr not_on ↦ elim (Bool-cases (endpoint_eq e (record endpoint_on { enabled = false }))) [
    | inl off ↦
        decodes b (2 ∷ []) _ (rw (not_on, off, encode) at h)
          (one_endpoint e (record endpoint_on { enabled = false }) 2 off refl)
    | inr unknown ↦ cc (rw (not_on, unknown, encode) at h)
  ]
]
decode-encode [] (some s) level b h = cc h
decode-encode [] none (some s) b h = cc h
decode-encode (e ∷ []) (some s) level b h = cc h
decode-encode (e ∷ []) none (some s) b h = cc h
decode-encode (e ∷ f ∷ es) ssh level b h = cc h

pub yaml-IsLawfulYaml : IsLawfulYaml yaml
yaml-IsLawfulYaml = record { reads_back = λ c b h. decode-encode c.endpoints c.ssh c.loglevel b h }

-- No configuration file yet, and a key file.
abbrev pub disk : Disk
disk = record {
  config = record { content = none; read_error = none; write_error = none };
  key = record { content = none; read_error = none; write_error = none };
  addr = record { content = none; read_error = none; write_error = none };
}

abbrev pub disk_on : Disk
disk_on = record disk { config = record disk.config { content = some (1 ∷ []) } }

-- This `trim` knows one text.
unfoldable pub trim : String → String
trim s = if str_eq s " k " then "k" else s

loads_none : load_from_file_or_new yaml disk ≡ ok no_config
unfolding load_from_file_or_new load_from_file load_from_file_path or_new read from_io
loads_none = refl

pub loads_on : load_from_file_or_new yaml disk_on ≡ ok (with_endpoint endpoint_on)
unfolding load_from_file_or_new load_from_file load_from_file_path or_new read parsed decode
loads_on = refl

adds : add_endpoint yaml args disk ≡ (disk_on, ok tt)
unfolding add_endpoint with_existing load_from_file_or_new load_from_file load_from_file_path or_new
    read from_io clash new_endpoint healthcheck_of save_and_return save_to_file write encode
    returned endpoint_eq
adds = refl

adds_ok : (add_endpoint yaml args disk).1 ≡ ok tt
adds_ok = rw adds refl

add_endpoint-eq_ok_example :
    load_from_file yaml (add_endpoint yaml args disk).0 ≡ ok (with_endpoint endpoint_on)
unfolding new_endpoint healthcheck_of
add_endpoint-eq_ok_example =
    (add_endpoint-eq_ok yaml args disk no_config loads_none yaml-IsLawfulYaml refl adds_ok).1

abbrev removal : RemoveEndpointArgs
removal = record { dns = "b.example"; idempotent = false }

removes : (remove_endpoint yaml removal disk_on).1 ≡ ok tt
unfolding remove_endpoint with_existing load_from_file_or_new load_from_file load_from_file_path
    or_new read parsed decode retain_others save_and_return save_to_file write encode returned
removes = refl

removes_added : (remove_endpoint yaml removal (add_endpoint yaml args disk).0).1 ≡ ok tt
removes_added = rw adds removes

remove-add_endpoint_example :
    load_from_file yaml (remove_endpoint yaml removal (add_endpoint yaml args disk).0).0
    ≡ ok no_config
remove-add_endpoint_example =
    remove-add_endpoint yaml args false disk no_config yaml-IsLawfulYaml loads_none refl adds_ok
      removes_added

pub disables : (set_endpoint_enabled yaml false (some "b.example") disk_on).1 ≡ ok (true, true)
unfolding set_endpoint_enabled with_existing load_from_file_or_new load_from_file
    load_from_file_path or_new read parsed decode set_enabled set_one save_and_return save_to_file
    write encode endpoint_eq returned
disables = refl

-- The endpoint is enabled already.
enables_all : (set_endpoint_enabled yaml true none disk_on).1 ≡ ok (true, true)
unfolding set_endpoint_enabled with_existing load_from_file_or_new load_from_file
    load_from_file_path or_new read parsed decode set_enabled set_one save_and_return save_to_file
    write encode endpoint_eq returned
enables_all = refl

set_all_enabled-eq_ok_example :
    (load_from_file yaml (set_endpoint_enabled yaml true none disk_on).0
      ≡ ok (with_endpoint endpoint_on))
    × (◌≡◌ {A = Bool × Bool} (true, true) (true, true))
set_all_enabled-eq_ok_example =
    set_all_enabled-eq_ok yaml true disk_on (with_endpoint endpoint_on) (true, true)
      yaml-IsLawfulYaml loads_on refl enables_all
