-- ===== src/Tests/ServerCases.antt =====
-- The local server and its client.
use Prim.Native.String.{◌++◌ as str_append, count}
use Prim.Native.String.append
use Prim.Native.String.count as Count
use ebbflow.Prelude.{
  ap, ◌∙◌, ℕ, zero, suc, ◌≡◌, refl, String, List, [], ◌∷◌, Option, none, some, str_eq,
  if◌then◌else◌, subst,
}
use ebbflow.Prelude.Result.{Result, ok, err}
use ebbflow.Config.Files.{write_addr, write}
use ebbflow.MessageQueue
use ebbflow.MessageQueue.{get_messages}
use ebbflow.Runner.{DaemonStatusMeta, uninitialized, good, new}
use ebbflow.Runner.Status.{DaemonEndpointStatus, DaemonStatus, status, ssh_status}
use ebbflow.InfoServer.{Json, handle, run_info_server, serve, listening}
use ebbflow.InfoServer.Shown.{IsLawfulJson, show_status-run_info_server}
use ebbflow.Cli.Status.{Client, show_status}
use ebbflow.Tests.CliCases.{disk}

-- The text of two statuses is known.
unfoldable pub encode :
    DaemonStatusMeta
    → List (String × DaemonEndpointStatus)
    → Option (String × DaemonEndpointStatus)
    → List (String × String)
    → Option String
encode uninitialized [] none [] = some "u"
encode good [] none [] = some "g"
encode _ _ _ _ = none

abbrev bare : DaemonStatusMeta → DaemonStatus
bare m = record { meta = m; endpoints = []; ssh = none; messages = [] }

unfoldable pub decode : String → Result String DaemonStatus
decode s = if str_eq s "u" then ok (bare uninitialized) else ok (bare good)

abbrev pub json : Json
json = record {
  to_string_pretty = λ s. encode s.meta s.endpoints s.ssh s.messages;
  from_str = decode;
}

decodes :
    (text known : String) (m : DaemonStatusMeta)
    → ◌≡◌ {A = Option String} (some known) (some text)
    → decode known ≡ ok (bare m)
    → decode text ≡ ok (bare m)
decodes text known m h e = subst (λ x. decode x ≡ ok (bare m)) (cc h) e

decode-encode :
    (m : DaemonStatusMeta) (es : List (String × DaemonEndpointStatus))
    (ssh : Option (String × DaemonEndpointStatus)) (ms : List (String × String)) (text : String)
    → encode m es ssh ms ≡ some text
    → decode text ≡ ok (record { meta = m; endpoints = es; ssh = ssh; messages = ms })
unfolding encode decode
decode-encode uninitialized [] none [] text h = decodes text "u" uninitialized h refl
decode-encode good [] none [] text h = decodes text "g" good h refl
decode-encode uninitialized (e ∷ es) ssh ms text h = cc h
decode-encode uninitialized [] (some s) ms text h = cc h
decode-encode uninitialized [] none (m ∷ ms) text h = cc h
decode-encode good (e ∷ es) ssh ms text h = cc h
decode-encode good [] (some s) ms text h = cc h
decode-encode good [] none (m ∷ ms) text h = cc h

json-IsLawfulJson : IsLawfulJson json
json-IsLawfulJson s text h = decode-encode s.meta s.endpoints s.ssh s.messages text h

abbrev addr : String
addr = "127.0.0.1:9"

-- A text without its first characters.
unfoldable pub skip : ℕ → String → String
skip zero s = s
skip (suc n) String.[] = ""
skip (suc n) (String.◌∷◌ c s) = skip n s

skip-append : (s t : String) → skip (count s) (str_append s t) ≡ t
unfolding skip
skip-append String.[] t = ap (λ n. skip n (str_append "" t)) Count.nil ∙ append.nil t
skip-append (String.◌∷◌ c s) t =
    ap (λ n. skip n (str_append (String.◌∷◌ c s) t)) (Count.cons c s)
    ∙ ap (skip (suc (count s))) (append.cons c s t)
    ∙ skip-append s t

-- The server answers for a new runner, on the path that follows the address.
abbrev pub client : Client (Unit {0})
client = record {
  parse = λ s. if str_eq s addr then some tt else none;
  to_text = λ u. addr;
  get = λ u. ok (handle json (skip 11 (skip 7 u)) new);
}

answers :
    (path : String)
    → client.get (str_append "http://" (str_append (client.to_text tt) path))
      ≡ ok (handle json path new)
answers path =
    ap (λ p. ok (handle json p new))
      (ap (skip 11) (skip-append "http://" (str_append addr path)) ∙ skip-append addr path)

abbrev same : String → String
same s = s

-- The first binding fails.
abbrev bindings : List (Result String String)
bindings = err "in use" ∷ ok addr ∷ []

listens : (run_info_server same bindings disk).1 ≡ listening addr
unfolding run_info_server serve write_addr write
listens = refl

status_text : json.to_string_pretty (status new) ≡ some "u"
unfolding encode status new ssh_status get_messages MessageQueue.new
status_text = refl

show_status-run_info_server_example :
    show_status same client json (run_info_server same bindings disk).0 ≡ ok (status new)
show_status-run_info_server_example =
    show_status-run_info_server same client json json-IsLawfulJson addr tt bindings disk new "u"
      refl refl refl refl listens status_text answers
