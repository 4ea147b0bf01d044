-- ===== src/InfoServer/Shown.antt =====
-- The status that the client shows (src/ebbflow.rs) when the server of src/infoserver.rs runs: the
-- address goes by its file, the status by the server's answer.
use Prim.Native.String.{◌++◌ as str_append}
use ebbflow.Prelude.{
  ◌≡◌, refl, sym, ap, ◌∙◌, subst, String, false, List, [], ◌∷◌, Option, none, some, str_eq,
}
use ebbflow.Prelude.Result.{Result, ok, err}
use ebbflow.Config.Files.{ConfigError, ErrorKind, Disk, File, write, write_addr, read_addr}
use ebbflow.Config.SaveLoad.{write-eq_ok, read-written}
use ebbflow.Runner.{InnerDaemonRunner}
use ebbflow.Runner.Status.{DaemonStatus, status}
use ebbflow.InfoServer.{Json, Round, retry, listening, handle, serialized, serve, run_info_server}
use ebbflow.Cli.Status.{Client, show_status, received, url}

-- What `serde_json` writes, it reads back.
abbrev pub IsLawfulJson : Json → Type 0
IsLawfulJson json =
    (s : DaemonStatus) (text : String)
    → json.to_string_pretty s ≡ some text
    → json.from_str text ≡ ok s

module _ {A : Type 0} (trim : String → String) (parse : String → Option A) where
  read-write_addr :
      (addr : String) (a : A) (d : Disk)
      → trim (trim addr) ≡ trim addr
      → str_eq (trim addr) "" ≡ false
      → parse (trim addr) ≡ some a
      → d.addr.read_error ≡ none
      → (write_addr trim addr d).1 ≡ ok tt
      → read_addr trim parse (write_addr trim addr d).0 ≡ ok a
  unfolding read_addr write_addr
  read-write_addr addr a d twice filled parses readable writes =
      rw (write-eq_ok (trim addr) d.addr writes)
        (rw (read-written (trim addr) d.addr readable) (rw filled (rw twice (rw parses refl))))

  write-readable :
      (b : String) (f : File String) (o : Option ErrorKind)
      → f.write_error ≡ o
      → (write b f).0.read_error ≡ f.read_error
  unfolding write
  write-readable b f none e = rw (e, write) refl
  write-readable b f (some x) e = rw (e, write) refl

  serve-wrote :
      (x : String) (d : Disk) (o : Result ConfigError (Unit {0}))
      → (write_addr trim x d).1 ≡ o
      → (serve trim (ok x) d).0 ≡ (write_addr trim x d).0
  unfolding serve
  serve-wrote x d (err e) w = rw (w, serve) refl
  serve-wrote x d (ok u) w = rw (w, serve) refl

  -- Binding and writing do not change whether the file can be read.
  serve-readable :
      (b : Result String String) (d : Disk) → (serve trim b d).0.addr.read_error ≡ d.addr.read_error
  unfolding serve write_addr
  serve-readable (err e) d = refl
  serve-readable (ok x) d =
      ap (λ d'. d'.addr.read_error) (serve-wrote x d (write_addr trim x d).1 refl)
      ∙ write-readable (trim x) d.addr d.addr.write_error refl

  module _ (addr : String) (a : A) (twice : trim (trim addr) ≡ trim addr)
      (filled : str_eq (trim addr) "" ≡ false) (parses : parse (trim addr) ≡ some a) where
    serve-read :
        (x : String) (d : Disk) (o : Result ConfigError (Unit {0}))
        → (write_addr trim x d).1 ≡ o
        → d.addr.read_error ≡ none
        → (serve trim (ok x) d).1 ≡ listening addr
        → read_addr trim parse (serve trim (ok x) d).0 ≡ ok a
    unfolding serve
    serve-read x d (err e) w readable h = cc (rw (w, serve) at h)
    serve-read x d (ok u) w readable h =
        let same : x ≡ addr = cc (rw (w, serve) at h) in
        rw (serve-wrote x d (ok u) w) (
          subst (λ y. read_addr trim parse (write_addr trim y d).0 ≡ ok a) (sym same)
            (read-write_addr addr a d twice filled parses readable
              (subst (λ y. (write_addr trim y d).1 ≡ ok tt) same w)))

    round-read :
        (b : Result String String) (bs : List (Result String String)) (d : Disk) (o : Round)
        → ((run_info_server trim bs (serve trim b d).0).1 ≡ listening addr
            → read_addr trim parse (run_info_server trim bs (serve trim b d).0).0 ≡ ok a)
        → (serve trim b d).1 ≡ o
        → d.addr.read_error ≡ none
        → (run_info_server trim (b ∷ bs) d).1 ≡ listening addr
        → read_addr trim parse (run_info_server trim (b ∷ bs) d).0 ≡ ok a
    unfolding run_info_server
    round-read b bs d retry rest r readable h =
        simp (r, run_info_server) (rest (simp (r, run_info_server) at h))
    round-read (err e) bs d (listening x) rest r readable h = rest h
    round-read (ok y) bs d (listening x) rest r readable h =
        let same : (listening x) ≡ listening addr = rw (r, run_info_server) at h in
        rw (r, run_info_server) (serve-read y d (write_addr trim y d).1 refl readable (r ∙ same))

    run-read :
        (bs : List (Result String String)) (d : Disk)
        → d.addr.read_error ≡ none
        → (run_info_server trim bs d).1 ≡ listening addr
        → read_addr trim parse (run_info_server trim bs d).0 ≡ ok a
    unfolding run_info_server
    run-read [] d readable h = cc h
    run-read (b ∷ bs) d readable h =
        round-read b bs d (serve trim b d).1
          (run-read bs (serve trim b d).0 (serve-readable b d ∙ readable)) refl readable h

-- When the loop of the server comes to a server that listens on an address, whose text is neither
-- empty nor unreadable, the file of the address can be read, and each request for a path at that
-- address is answered by the server's handler on that path, the client shows the status of the
-- daemon's runner, if serde_json can write it and reads back what it writes.
pub show_status-run_info_server :
    {A : Type 0} (trim : String → String) (client : Client A) (json : Json)
    → IsLawfulJson json
    → (addr : String) (a : A) (bs : List (Result String String)) (d : Disk) (r : InnerDaemonRunner)
      (text : String)
    → trim (trim addr) ≡ trim addr
    → str_eq (trim addr) "" ≡ false
    → client.parse (trim addr) ≡ some a
    → d.addr.read_error ≡ none
    → (run_info_server trim bs d).1 ≡ listening addr
    → json.to_string_pretty (status r) ≡ some text
    → ((path : String)
        → client.get (str_append "http://" (str_append (client.to_text a) path))
          ≡ ok (handle json path r))
    → show_status trim client json (run_info_server trim bs d).0 ≡ ok (status r)
unfolding show_status url received handle serialized
show_status-run_info_server trim client json lawful addr a bs d r text twice filled parses readable
      listens writes answers =
    rw (run-read trim client.parse addr a twice filled parses bs d readable listens, show_status)
      (rw (answers "/unstable_status")
        (rw writes (rw (lawful (status r) text writes, received) refl)))
