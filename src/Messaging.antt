-- ===== src/Messaging.antt =====
-- src/messaging.rs: the messages between the client and Ebbflow, and their wire format. The CBOR
-- library is a parameter: an encoder and a decoder for each payload.
pub mod Wire
pub mod RoundTrip
use ebbflow.Prelude.{
  ℕ, ◌+◌, ◌%◌, ◌^◌, String, Bool, List, [], ◌∷◌, ◌++◌, Option, none, some, ltb, ◌==◌, length, take,
  drop, if◌then◌else◌,
}
use ebbflow.Prelude.Result.{Result, ok, err, ◌>>=◌, ok_or}
use ebbflow.Prelude.Bytes.{Bytes, to_be_bytes, from_be_bytes}

-- `CARGO_PKG_VERSION`
abbrev pub version : String
version = "1.1.0"

pub data MessageError : Type 0 where
  parse unknown_message : MessageError
  internal : String → MessageError

pub data EndpointType : Type 0 where
  ssh tls : EndpointType

pub record HelloV0 : Type 0 where
  pub key : String
  pub endpoint_type : EndpointType
  pub endpoint_value : String
  pub meta : List (String × String)

-- `HelloV0::new`
unfoldable pub hello_new : String → EndpointType → String → HelloV0
hello_new key endpoint e = record {
  key = key;
  endpoint_type = endpoint;
  endpoint_value = e;
  meta = ("version", version) ∷ [];
}

pub data EnableDisableTarget : Type 0 where
  all_everything all_endpoints ssh_only : EnableDisableTarget
  specific_endpoints : List String → EnableDisableTarget

pub record EnableDisableRequestV0 : Type 0 where
  pub should_be_running : Bool
  pub target : EnableDisableTarget

pub record StatusV0 : Type 0 where
  pub endpoint_type : EndpointType
  pub endpoint_value : String
  pub enabled : Bool

pub record StatusResponseV0 : Type 0 where
  pub statuses : List StatusV0

pub data HelloResponseIssue : Type 0 where
  not_found forbidden bad_request : HelloResponseIssue

pub record HelloResponseV0 : Type 0 where
  pub issue : Option HelloResponseIssue

pub record StartTrafficResponseV0 : Type 0 where
  pub open_local_success_ready : Bool

pub data Message : Type 0 where
  hello_v0 : HelloV0 → Message
  status_request_v0 : Message
  status_response_v0 : StatusResponseV0 → Message
  enable_disable_request_v0 : EnableDisableRequestV0 → Message
  enable_disable_response_v0 : Message
  hello_response_v0 : HelloResponseV0 → Message
  start_traffic_v0 : Message
  start_traffic_response_v0 : StartTrafficResponseV0 → Message

-- `serde_cbor::to_vec` and `from_slice` at one type; `none` is an error.
pub record Codec (A : Type 0) : Type 0 where
  pub to_vec : A → Option Bytes
  pub from_slice : Bytes → Option A

pub record Cbor : Type 0 where
  pub hello : Codec HelloV0
  pub status_response : Codec StatusResponseV0
  pub enable_disable_request : Codec EnableDisableRequestV0
  pub hello_response : Codec HelloResponseV0
  pub start_traffic_response : Codec StartTrafficResponseV0

unfoldable pub message_id : Message → ℕ
message_id (hello_v0 x) = 1
message_id status_request_v0 = 2
message_id (status_response_v0 x) = 3
message_id (enable_disable_request_v0 x) = 4
message_id enable_disable_response_v0 = 5
message_id (hello_response_v0 x) = 6
message_id start_traffic_v0 = 7
message_id (start_traffic_response_v0 x) = 8

module _ (cbor : Cbor) where
  unfoldable pub payload : Message → Result MessageError Bytes
  payload (hello_v0 x) = ok_or (cbor.hello.to_vec x) parse
  payload status_request_v0 = ok []
  payload (status_response_v0 x) = ok_or (cbor.status_response.to_vec x) parse
  payload (enable_disable_request_v0 x) = ok_or (cbor.enable_disable_request.to_vec x) parse
  payload enable_disable_response_v0 = ok []
  payload (hello_response_v0 x) = ok_or (cbor.hello_response.to_vec x) parse
  payload start_traffic_v0 = ok []
  payload (start_traffic_response_v0 x) = ok_or (cbor.start_traffic_response.to_vec x) parse

  -- The length is a u32: the casts and the sum wrap, as in a release build.
  unfoldable pub to_wire_message : Message → Result MessageError Bytes
  to_wire_message m = do
    body ← payload m
    let id = to_be_bytes (message_id m)
    let len = (length id % 2 ^ 32 + length body % 2 ^ 32) % 2 ^ 32
    ok (to_be_bytes len ++ (id ++ body))

  abbrev decoded : {A : Type 0} → (A → Message) → Option A → Result MessageError Message
  decoded f o = ok_or o parse >>= λ x. ok (f x)

  -- The `match` on the message id.
  unfoldable pub from_payload : ℕ → Bytes → Result MessageError Message
  from_payload id body =
      if id == 1
      then decoded hello_v0 (cbor.hello.from_slice body)
      else if id == 2
      then ok status_request_v0
      else if id == 3
      then decoded status_response_v0 (cbor.status_response.from_slice body)
      else if id == 4
      then decoded enable_disable_request_v0 (cbor.enable_disable_request.from_slice body)
      else if id == 5
      then ok enable_disable_response_v0
      else if id == 6
      then decoded hello_response_v0 (cbor.hello_response.from_slice body)
      else if id == 7
      then ok start_traffic_v0
      else if id == 8
      then decoded start_traffic_response_v0 (cbor.start_traffic_response.from_slice body)
      else err unknown_message

  unfoldable pub from_wire_without_the_length_prefix : Bytes → Result MessageError Message
  from_wire_without_the_length_prefix buf =
      if ltb (length buf) 4
      then err parse
      else from_payload (from_be_bytes (take 4 buf)) (drop 4 buf)
