-- ===== src/InfoServer.antt =====
-- src/infoserver.rs: the local HTTP server that shows the runner's status, and where it says it
-- listens. `serde_json` and the sockets are parameters.
pub mod Shown
use ebbflow.Prelude.{ℕ, String, Option, none, some, List, [], ◌∷◌, str_eq, if◌then◌else◌}
use ebbflow.Prelude.Result.{Result, ok, err}
use ebbflow.Config.Files.{Disk, write_addr}
use ebbflow.Runner.{InnerDaemonRunner}
use ebbflow.Runner.Status.{DaemonStatus, status}

pub record Response : Type 0 where
  pub code : ℕ
  pub body : String

-- `serde_json`; an error of reading is known by its text, one of writing is only logged.
pub record Json : Type 0 where
  pub to_string_pretty : DaemonStatus → Option String
  pub from_str : String → Result String DaemonStatus

unfoldable pub serialized : Option String → Response
serialized (some s) = record { code = 200; body = s }
serialized none = record { code = 500; body = "Error getting status" }

unfoldable pub handle : Json → String → InnerDaemonRunner → Response
unfolding serialized
handle json path r =
    if str_eq path "/unstable_status"
    then serialized (json.to_string_pretty (status r))
    else record { code = 400; body = "Invalid Request" }

-- One round of the loop: what binding came to, which is the address that the system picked.
pub data Round : Type 0 where
  retry : Round
  listening : String → Round

unfoldable pub serve : (String → String) → Result String String → Disk → Disk × Round
unfolding write_addr
serve trim (err e) d = (d, retry)
serve trim (ok addr) d =
    let (d', r) = write_addr trim addr d in
    elim r [ err e ↦ (d', retry) | ok u ↦ (d', listening addr) ]

-- The loop until a server runs, over what its bindings come to; it never gives up.
unfoldable pub run_info_server :
    (String → String) → List (Result String String) → Disk → Disk × Round
unfolding serve
run_info_server trim [] d = (d, retry)
run_info_server trim (b ∷ bs) d =
    let (d', r) = serve trim b d in
    let rest = run_info_server trim bs d' in
    elim r [ retry ↦ rest | listening addr ↦ (d', listening addr) ]
