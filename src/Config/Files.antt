-- ===== src/Config/Files.antt =====
-- The files of src/config.rs: the configuration and the key. A file is what it holds and how the
-- file system answers; `serde_yaml`, `trim` and the text of an error are parameters.
use ebbflow.Prelude.{if◌then◌else◌, str_eq, String, [], Option, none, some}
use ebbflow.Prelude.Result.{Result, ok, err, ◌>>=◌}
use ebbflow.Prelude.Bytes.{Bytes}
use ebbflow.Config.Data.{EbbflowDaemonConfig}

pub data ErrorKind : Type 0 where
  not_found permission_denied : ErrorKind
  other : String → ErrorKind

pub data ConfigError : Type 0 where
  parsing file_not_found file_permissions empty : ConfigError
  unknown : String → ConfigError

-- `From<IoError>`, which `?` applies.
unfoldable pub from_io : ErrorKind → ConfigError
from_io not_found = file_not_found
from_io permission_denied = file_permissions
from_io (other e) = unknown e

-- What a file holds, if it is there, and the errors of reading and writing it, if there are any.
pub record File (A : Type 0) : Type 0 where
  pub content : Option A
  pub read_error : Option ErrorKind
  pub write_error : Option ErrorKind

pub record Disk : Type 0 where
  pub config : File Bytes
  pub key : File String
  pub addr : File String

-- `fs::read(..).await?`
unfoldable pub read : {A : Type 0} → File A → Result ConfigError A
unfolding from_io
read f = elim f.read_error [
  | some e ↦ err (from_io e)
  | none ↦ elim f.content [ none ↦ err (from_io not_found) | some b ↦ ok b ]
]

-- `fs::write(..).await?`
unfoldable pub write : {A : Type 0} → A → File A → File A × Result ConfigError (Unit {0})
unfolding from_io
write b f = elim f.write_error [
  | some e ↦ (f, err (from_io e))
  | none ↦ (record f { content = some b }, ok tt)
]

pub data PossiblyEmptyEbbflowDaemonConfig : Type 0 where
  empty_config : PossiblyEmptyEbbflowDaemonConfig
  ebbflow_daemon_config : EbbflowDaemonConfig → PossiblyEmptyEbbflowDaemonConfig

-- `serde_yaml`; `none` is an error.
pub record Yaml : Type 0 where
  pub from_slice : Bytes → Option PossiblyEmptyEbbflowDaemonConfig
  pub to_string : EbbflowDaemonConfig → Option Bytes

-- The `match` on what was parsed.
unfoldable pub parsed :
    Option PossiblyEmptyEbbflowDaemonConfig → Result ConfigError EbbflowDaemonConfig
parsed none = err parsing
parsed (some empty_config) = err empty
parsed (some (ebbflow_daemon_config c)) = ok c

-- The file is the one at the path.
unfoldable pub load_from_file_path : Yaml → File Bytes → Result ConfigError EbbflowDaemonConfig
unfolding read parsed
load_from_file_path yaml f = read f >>= λ b. parsed (yaml.from_slice b)

unfoldable pub load_from_file : Yaml → Disk → Result ConfigError EbbflowDaemonConfig
unfolding load_from_file_path
load_from_file yaml d = load_from_file_path yaml d.config

abbrev pub no_config : EbbflowDaemonConfig
no_config = record { endpoints = []; ssh = none; loglevel = none }

unfoldable pub or_new :
    Result ConfigError EbbflowDaemonConfig → Result ConfigError EbbflowDaemonConfig
or_new (err empty) = ok no_config
or_new (err file_not_found) = ok no_config
or_new r = r

unfoldable pub load_from_file_or_new : Yaml → Disk → Result ConfigError EbbflowDaemonConfig
unfolding load_from_file or_new
load_from_file_or_new yaml d = or_new (load_from_file yaml d)

unfoldable pub save_to_file :
    Yaml → EbbflowDaemonConfig → Disk → Disk × Result ConfigError (Unit {0})
unfolding write
save_to_file yaml c d = elim (yaml.to_string c) [
  | none ↦ (d, err parsing)
  | some b ↦ let (f, r) = write b d.config in (record d { config = f }, r)
]

unfoldable pub getkey : (String → String) → Disk → Result ConfigError String
unfolding read
getkey trim d = read d.key >>= λ s. if str_eq s "" then err empty else ok (trim s)

unfoldable pub setkey : (String → String) → String → Disk → Disk × Result ConfigError (Unit {0})
unfolding write
setkey trim k d = let (f, r) = write (trim k) d.key in (record d { key = f }, r)

unfoldable pub write_addr : (String → String) → String → Disk → Disk × Result ConfigError (Unit {0})
unfolding write
write_addr trim addr d = let (f, r) = write (trim addr) d.addr in (record d { addr = f }, r)

-- `parse` is that of `SocketAddrV4`.
unfoldable pub read_addr :
    {A : Type 0} → (String → String) → (String → Option A) → Disk → Result ConfigError A
unfolding read
read_addr trim parse d = read d.addr >>= λ s.
    if str_eq s "" then err empty else elim (parse (trim s)) [ none ↦ err parsing | some a ↦ ok a ]

-- Opening a file to write creates it, empty, if it is not there.
unfoldable pub open_or_create : {A : Type 0} → A → File A → File A × Result ConfigError (Unit {0})
unfolding from_io
open_or_create blank f = elim f.write_error [
  | some e ↦ (f, err (from_io e))
  | none ↦ elim f.content [
    | some b ↦ (f, ok tt)
    | none ↦ (record f { content = some blank }, ok tt)
  ]
]

unfoldable pub check_permissions : Disk → Disk × Result ConfigError (Unit {0})
unfolding open_or_create
check_permissions d =
    let (config, r) = open_or_create [] d.config in
    let (key, r') = open_or_create "" d.key in
    let d' = record d { config = config } in
    elim r [ err e ↦ (d', err e) | ok u ↦ (record d' { key = key }, r') ]

unfoldable pub key_or_none : Result ConfigError String → Result ConfigError (Option String)
key_or_none (ok k) = ok (some k)
key_or_none (err empty) = ok none
key_or_none (err file_not_found) = ok none
key_or_none (err e) = err e

unfoldable pub config_or_none :
    Result ConfigError EbbflowDaemonConfig → Result ConfigError (Option EbbflowDaemonConfig)
config_or_none (ok c) = ok (some c)
config_or_none (err empty) = ok none
config_or_none (err e) = err e

-- `config_reload` of src/ebbflowd.rs: an empty configuration file counts as none, a missing one is
-- an error; a missing or empty key file counts as none.
unfoldable pub config_reload :
    Yaml
    → (String → String)
    → Disk
    → Result ConfigError (Option EbbflowDaemonConfig × Option String)
unfolding load_from_file getkey config_or_none key_or_none
config_reload yaml trim d = do
  cfg ← config_or_none (load_from_file yaml d)
  key ← key_or_none (getkey trim d)
  ok (cfg, key)
