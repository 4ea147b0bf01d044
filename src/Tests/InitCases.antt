-- ===== src/Tests/InitCases.antt =====
-- `init` with an answer that is no answer, then one.
use ebbflow.Prelude.{◌≡◌, refl, String, true, [], ◌∷◌, some}
use ebbflow.Prelude.Result.{ok}
use ebbflow.Config.Files.{check_permissions, open_or_create, setkey, save_to_file, write}
use ebbflow.Cli.{returned}
use ebbflow.Cli.Console.{Input, get_yn, extract_yn, yes_or_no}
use ebbflow.Cli.Init.{
  Env, status_accepted, status_ok, ask_ssh, poll_key_creation, create_key_request, used_name,
  finish, with_key, provision, after_questions, with_hostname, init_interactive,
}
use ebbflow.Cli.Init.Ready.{IsInitialized, init_interactive-IsInitialized}
use ebbflow.Tests.CliCases.{yaml, yaml-IsLawfulYaml, encode, disk}

abbrev same : String → String
same s = s

abbrev pub env : Env
env = record {
  text = record { trim = same; to_lowercase = same };
  is_hostname = λ s. true;
  hostname = ok "host";
  post_hostkeyinit = λ h. ok "id";
  polled = λ id. status_accepted ∷ status_ok (ok "key") ∷ [];
}

abbrev twice : (s : String) → env.text.trim (env.text.trim s) ≡ env.text.trim s
twice s = refl

abbrev input : Input
input = ok "maybe" ∷ ok "n" ∷ []

ends_well : (init_interactive env yaml input disk).1 ≡ some (ok tt)
unfolding init_interactive check_permissions open_or_create with_hostname after_questions used_name
    provision poll_key_creation create_key_request with_key finish setkey save_to_file write
    returned ask_ssh get_yn extract_yn yes_or_no encode
ends_well = refl

init_interactive-IsInitialized_example :
    IsInitialized env yaml twice yaml-IsLawfulYaml input (init_interactive env yaml input disk).0
init_interactive-IsInitialized_example =
    init_interactive-IsInitialized env yaml twice yaml-IsLawfulYaml input disk refl refl ends_well
