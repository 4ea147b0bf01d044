-- ===== src/Cli/Status.antt =====
-- `status` of src/ebbflow.rs: the command that asks the daemon's local server for the status of the
-- runner. The address, its texts and the http client are parameters.
use Prim.Native.String.{◌++◌ as str_append}
use ebbflow.Prelude.{String, Option}
use ebbflow.Prelude.Result.{Result, ok, err}
use ebbflow.Config.Files.{ConfigError, empty, file_not_found, Disk, read_addr}
use ebbflow.Runner.Status.{DaemonStatus}
use ebbflow.InfoServer.{Response, Json}
use ebbflow.Cli.{CliError, config_error, other}

-- `SocketAddrV4` and `reqwest::get`, whose errors are known by their text.
pub record Client (A : Type 0) : Type 0 where
  pub parse : String → Option A
  pub to_text : A → String
  pub get : String → Result String Response

abbrev no_address : String
no_address = "Could not connect to daemon; was unable to determine daemon address"

abbrev unexpected : String
unexpected = "Failure retrieving status from the local daemon! Very unexpected.\nError Message: "

abbrev not_running : String
not_running =
    "Failure retrieving status from the local daemon, it may not be running..\nError Message: "

-- The match on what reading the address came to.
unfoldable pub addr_error : ConfigError → CliError
addr_error empty = other no_address
addr_error file_not_found = other no_address
addr_error e = config_error e

unfoldable pub url : String → String
url addr = str_append "http://" (str_append addr "/unstable_status")

unfoldable pub received : Json → Result String Response → Result CliError DaemonStatus
received json (err e) = err (other (str_append not_running e))
received json (ok r) = elim (json.from_str r.body) [
  | ok s ↦ ok s
  | err e ↦ err (other (str_append unexpected e))
]

-- What is printed, or the error.
unfoldable pub show_status :
    {A : Type 0} → (String → String) → Client A → Json → Disk → Result CliError DaemonStatus
unfolding read_addr received addr_error url
show_status trim client json d = elim (read_addr trim (client.parse) d) [
  | err e ↦ err (addr_error e)
  | ok a ↦ received json (client.get (url (client.to_text a)))
]
