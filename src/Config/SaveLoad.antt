-- ===== src/Config/SaveLoad.antt =====
-- What was saved is loaded again.
use ebbflow.Prelude.{String, str_eq, if◌then◌else◌, ◌≡◌, refl, ap, Option, none, some}
use ebbflow.Prelude.Result.{ok, err}
use ebbflow.Prelude.Bytes.{Bytes}
use ebbflow.Config.Data.{EbbflowDaemonConfig}
use ebbflow.Config.Files.{
  empty, ErrorKind, getkey, setkey, Yaml, ebbflow_daemon_config, Disk, File, read, write, parsed,
  load_from_file, load_from_file_path, save_to_file,
}

-- Serde's promise for the derived instances of a configuration.
pub record IsLawfulYaml (yaml : Yaml) : Type 0 where
  pub reads_back :
      (c : EbbflowDaemonConfig) (b : Bytes)
      → yaml.to_string c ≡ some b
      → yaml.from_slice b ≡ some (ebbflow_daemon_config c)

written :
    {A : Type 0} (b : A) (f : File A) (o : Option ErrorKind)
    → f.write_error ≡ o
    → (write b f).1 ≡ ok tt
    → (write b f).0 ≡ record f { content = some b }
unfolding write
written b f none e h = simp (e, write) refl
written b f (some x) e h = cc (rw (e, write) at h)

pub write-eq_ok :
    {A : Type 0} (b : A) (f : File A)
    → (write b f).1 ≡ ok tt
    → (write b f).0 ≡ record f { content = some b }
write-eq_ok b f h = written b f f.write_error refl h

pub read-written :
    {A : Type 0} (b : A) (f : File A)
    → f.read_error ≡ none
    → read (record f { content = some b }) ≡ ok b
unfolding read
read-written b f h = rw h refl

saved :
    (yaml : Yaml) (c : EbbflowDaemonConfig) (d : Disk) (o : Option Bytes)
    → yaml.to_string c ≡ o
    → IsLawfulYaml yaml
    → d.config.read_error ≡ none
    → (save_to_file yaml c d).1 ≡ ok tt
    → load_from_file yaml (save_to_file yaml c d).0 ≡ ok c
unfolding save_to_file load_from_file load_from_file_path parsed
saved yaml c d none e l readable h = cc (rw (e, save_to_file) at h)
saved yaml c d (some b) e l readable h =
    let w = write-eq_ok b d.config (rw (e, save_to_file) at h) in
    rw (e, save_to_file)
      (rw w (rw (read-written b d.config readable) (rw (l.reads_back c b e) refl)))

-- If the configuration file can be read, and serde_yaml reads back what it wrote, a configuration
-- that was saved without an error is what is loaded next.
pub load-save_to_file :
    (yaml : Yaml) (c : EbbflowDaemonConfig) (d : Disk)
    → IsLawfulYaml yaml
    → d.config.read_error ≡ none
    → (save_to_file yaml c d).1 ≡ ok tt
    → load_from_file yaml (save_to_file yaml c d).0 ≡ ok c
load-save_to_file yaml c d l readable h = saved yaml c d (yaml.to_string c) refl l readable h

-- On a key file that can be read, a key that was set without an error is read back trimmed, unless
-- nothing is left of it, which is an error; `trim` trimmed twice trims once.
pub getkey-setkey :
    (trim : String → String) (k : String) (d : Disk)
    → trim (trim k) ≡ trim k
    → d.key.read_error ≡ none
    → (setkey trim k d).1 ≡ ok tt
    → getkey trim (setkey trim k d).0 ≡ (if str_eq (trim k) "" then err empty else ok (trim k))
unfolding setkey getkey
getkey-setkey trim k d twice readable h =
    rw (write-eq_ok (trim k) d.key h) (rw (read-written (trim k) d.key readable) (rw twice refl))

save_to_file-key :
    (yaml : Yaml) (c : EbbflowDaemonConfig) (d : Disk) (o : Option Bytes)
    → yaml.to_string c ≡ o
    → (save_to_file yaml c d).0.key ≡ d.key
unfolding save_to_file
save_to_file-key yaml c d none e = rw (e, save_to_file) refl
save_to_file-key yaml c d (some b) e = rw (e, save_to_file) refl

-- Saving the configuration leaves the key.
pub save-getkey :
    (trim : String → String) (yaml : Yaml) (c : EbbflowDaemonConfig) (d : Disk)
    → getkey trim (save_to_file yaml c d).0 ≡ getkey trim d
unfolding getkey
save-getkey trim yaml c d =
    ap (λ f. getkey trim (record d { key = f })) (save_to_file-key yaml c d (yaml.to_string c) refl)
