-- ===== src/Tests/Fixtures.antt =====
-- A CBOR codec, a host and configurations to run the model on.
use ebbflow.Prelude.{
  String, ◌≡◌, refl, true, false, [], ◌∷◌, Option, none, some, str_eq, eq_iff, Bool-cases, inl, inr,
  arith, ◌==◌, if◌then◌else◌,
}
use ebbflow.Prelude.Bytes.{Bytes}
use ebbflow.Prelude.Result.{Result, ok}
use ebbflow.Messaging.{
  HelloV0, tls, Codec, Cbor, HelloResponseV0, HelloResponseIssue, not_found, forbidden, bad_request,
  StartTrafficResponseV0,
}
use ebbflow.Messaging.RoundTrip.{IsLawful}
use ebbflow.Config.{Endpoint, EbbflowDaemonConfig, HealthCheck, tcp, ConcreteHealthCheck}
use ebbflow.Daemon.{Host}
use ebbflow.Daemon.Addrs.{SocketAddr}
use ebbflow.Daemon.Heap
use ebbflow.Connection.Stream.{in_time}
use ebbflow.Connection.Establish.{EndpointConnectionArgs, Dial}
use ebbflow.Connection.Run.{Session, finished, IsInRange}

pub String-discrete : Discrete String
String-discrete s t = elim (Bool-cases (str_eq s t)) [
  | inl e ↦ yes ((eq_iff s t).0 e)
  | inr e ↦ no (λ p. cc (e, (eq_iff s t).1 p))
]

pub HelloV0-discrete : Discrete HelloV0
HelloV0-discrete = hlevel String-discrete

-- The hello of an endpoint is the one byte 1; no other hello is known to this codec.
abbrev pub sample_args : EndpointConnectionArgs
sample_args = record { endpoint = "a.example"; key = "secret"; addrs = []; ctype = Heap.tls }

abbrev pub sample_hello : HelloV0
sample_hello = record {
  key = "secret";
  endpoint_type = tls;
  endpoint_value = "a.example";
  meta = ("version", "1.1.0") ∷ [];
}

unfoldable pub hello_to_vec : (x : HelloV0) → Dec (x ≡ sample_hello) → Option Bytes
hello_to_vec x (yes e) = some (1 ∷ [])
hello_to_vec x (no e) = none

unfoldable pub hello_from_slice : Bytes → Option HelloV0
hello_from_slice [] = none
hello_from_slice (b ∷ rest) = some sample_hello

abbrev pub hello_codec : Codec HelloV0
hello_codec = record {
  to_vec = λ x. hello_to_vec x (HelloV0-discrete x sample_hello);
  from_slice = hello_from_slice;
}

hello_reads_back :
    (x : HelloV0) (d : Dec (x ≡ sample_hello)) (b : Bytes)
    → hello_to_vec x d ≡ some b
    → hello_from_slice b ≡ some x
unfolding hello_to_vec hello_from_slice
hello_reads_back x (yes e) [] h = cc
hello_reads_back x (yes e) (c ∷ b) h = cc e
hello_reads_back x (no e) b h = cc

sample_to_vec :
    (d : Dec (sample_hello ≡ sample_hello)) → hello_to_vec sample_hello d ≡ some (1 ∷ [])
unfolding hello_to_vec
sample_to_vec (yes e) = refl
sample_to_vec (no e) = absurd (e refl)

pub hello_to_vec_sample : hello_codec.to_vec sample_hello ≡ some (1 ∷ [])
hello_to_vec_sample = sample_to_vec (HelloV0-discrete sample_hello sample_hello)

-- A response is one byte.
unfoldable pub response_to_vec : HelloResponseV0 → Option Bytes
response_to_vec r = elim r.issue [
  | none ↦ some (0 ∷ [])
  | some i ↦ elim i [
    | not_found ↦ some (1 ∷ [])
    | forbidden ↦ some (2 ∷ [])
    | bad_request ↦ some (3 ∷ [])
  ]
]

abbrev response : Option HelloResponseIssue → Option HelloResponseV0
response i = some (record { issue = i })

unfoldable pub response_from_slice : Bytes → Option HelloResponseV0
response_from_slice [] = none
response_from_slice (b ∷ rest) =
    if b == 0
    then response none
    else if b == 1
    then response (some not_found)
    else if b == 2
    then response (some forbidden)
    else response (some bad_request)

response_reads_back :
    (x : HelloResponseV0) (b : Bytes) → response_to_vec x ≡ some b → response_from_slice b ≡ some x
unfolding response_to_vec response_from_slice
response_reads_back x b h = ground arith

unfoldable pub ready_to_vec : StartTrafficResponseV0 → Option Bytes
ready_to_vec r = elim r.open_local_success_ready [ true ↦ some (1 ∷ []) | false ↦ some (0 ∷ []) ]

unfoldable pub ready_from_slice : Bytes → Option StartTrafficResponseV0
ready_from_slice [] = none
ready_from_slice (b ∷ rest) = some (record { open_local_success_ready = b == 1 })

ready_reads_back :
    (x : StartTrafficResponseV0) (b : Bytes) → ready_to_vec x ≡ some b → ready_from_slice b ≡ some x
unfolding ready_to_vec ready_from_slice
ready_reads_back x b h = ground arith

silent_reads_back :
    {A : Type 0} (x : A) (b : Bytes)
    → ◌≡◌ {A = Option Bytes} none (some b)
    → ◌≡◌ {A = Option A} none (some x)
silent_reads_back x b h = cc

abbrev pub cbor : Cbor
cbor = record {
  hello = hello_codec;
  status_response = record { to_vec = λ x. none; from_slice = λ b. none };
  enable_disable_request = record { to_vec = λ x. none; from_slice = λ b. none };
  hello_response = record { to_vec = response_to_vec; from_slice = response_from_slice };
  start_traffic_response = record { to_vec = ready_to_vec; from_slice = ready_from_slice };
}

pub cbor-IsLawful : IsLawful cbor
cbor-IsLawful = record {
  hello = record { reads_back = λ x b h. hello_reads_back x (HelloV0-discrete x sample_hello) b h };
  status_response = record { reads_back = silent_reads_back };
  enable_disable_request = record { reads_back = silent_reads_back };
  hello_response = record { reads_back = response_reads_back };
  start_traffic_response = record { reads_back = ready_reads_back };
}

abbrev pub success : Result String (Unit {0})
success = ok tt

abbrev pub sample_dial : Bytes → Dial
sample_dial incoming = record {
  tcp = in_time success;
  keepalive = success;
  nodelay = success;
  handshake = success;
  write_hello = success;
  flush_hello = success;
  incoming = incoming;
  hello_in_time = true;
  stopped_first = false;
}

abbrev pub sample_session : Bytes → Session
sample_session incoming = record {
  dial = sample_dial incoming;
  idle_timeout = false;
  attempt = λ a. record { tcp = in_time success; keepalive = success; nodelay = success };
  written = success;
  proxied = finished (ok tt);
  debug = λ e. "error";
  gen_range = λ low high. low;
}

pub low-IsInRange : IsInRange (λ low high. low)
low-IsInRange = record { lower = λ low high h. omega arith; upper = λ low high h. h }

abbrev pub localhost : SocketAddr
localhost = record { is_ipv4 = true; text = "127.0.0.1:80" }

abbrev pub sample_host : Host
sample_host = record {
  hostname = "box";
  now = "now";
  localhost = λ port. record { failures = []; addrs = localhost ∷ [] };
}

abbrev pub check : HealthCheck
check = record {
  port = none;
  consider_healthy_threshold = some 2;
  consider_unhealthy_threshold = some 3;
  type = tcp;
  frequency_secs = none;
}

abbrev pub endpoint_a : Endpoint
endpoint_a = record {
  port = 80;
  dns = "a.example";
  maxconns = 5000;
  maxidle = 40;
  enabled = true;
  healthcheck = some check;
}

abbrev pub endpoint_b : Endpoint
endpoint_b = record {
  port = 8080;
  dns = "b.example";
  maxconns = 200;
  maxidle = 2000;
  enabled = false;
  healthcheck = none;
}

abbrev pub sample_config : EbbflowDaemonConfig
sample_config = record { endpoints = endpoint_a ∷ endpoint_b ∷ []; ssh = none; loglevel = none }

abbrev pub concrete : ConcreteHealthCheck
concrete = record {
  port = 80;
  consider_healthy_threshold = 2;
  consider_unhealthy_threshold = 3;
  type = tcp;
  frequency_secs = 5;
}
