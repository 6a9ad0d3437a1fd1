-- ===== src/Client.antt =====
-- zencan-client/src/sdo_client.rs: the SDO client. This file has its errors, how it sends a request
-- and waits for the response; the children have the transfers.
pub mod Download
pub mod Upload
use zencan.Base.{
  ℕ, ◌+◌, ◌++◌, Bool, true, false, not, List, [], ◌∷◌, Option, none, some, Result, ok, err,
  if◌then◌else◌, same, maybe, either,
}
use zencan.Can.{CanId, CanMessage, same_id}
use zencan.Sdo.Abort.{AbortCode}
use zencan.Sdo.Request.{SdoRequest}
use zencan.Sdo.Request.Build
use zencan.Sdo.Request.Encode
use zencan.Sdo.Response.{SdoResponse}
use zencan.Sdo.Response.Decode.{from_message}

pub data RawAbortCode : Type 0 where
  valid : AbortCode → RawAbortCode
  unknown : ℕ → RawAbortCode

-- `AbortCode::try_from(u32)`, which the macro `IntEnum` makes; the error is dropped.
abbrev pub AbortCodeOf : Type 0
AbortCodeOf = ℕ → Option AbortCode

unfoldable pub raw_abort_code : AbortCodeOf → ℕ → RawAbortCode
raw_abort_code of_code value =
    maybe (of_code value) (RawAbortCode.unknown value) (λ c. RawAbortCode.valid c)

-- The text `expecting` of an unexpected response is left out.
pub data SdoClientError : Type 0 where
  no_response malformed_response : SdoClientError
  unexpected_response : SdoResponse → SdoClientError
  server_abort : (index sub : ℕ) (abort_code : RawAbortCode) → SdoClientError
  toggle_not_alternated : SdoClientError
  mismatched_object_index : (index sub resp_index resp_sub : ℕ) → SdoClientError
  unexpected_size socket_send_failed block_size_changed_too_small : SdoClientError

-- The traits `AsyncCanSender` and `AsyncCanReceiver`, and what is behind them: a frame that is sent
-- changes the network `N` and brings the frames that reach the receiver before the client's next
-- timeout. `none` is an error of the sender.
abbrev pub Network : Type 0 → Type 0
Network N = CanMessage → N → Option (List CanMessage × N)

-- `SdoClient`, with the frames that the receiver has and the client has not taken.
pub record Client (N : Type 0) : Type 0 where
  pub req_cob_id : CanId
  pub resp_cob_id : CanId
  pub inbox : List CanMessage
  pub network : N

-- How a method of the client ends: `none` is a panic.
abbrev pub Ends : Type 0 → Type 0 → Type 0
Ends N A = Option (Result SdoClientError A × Client N)

-- The frames with other identifiers are dropped; at the end of the frames the time is over.
unfoldable pub wait_for_response :
    CanId → List CanMessage → Result SdoClientError SdoResponse × List CanMessage
wait_for_response id [] = (err SdoClientError.no_response, [])
wait_for_response id (msg ∷ inbox) =
    let rest = wait_for_response id inbox in
    if same_id msg.id id
    then (maybe (from_message msg) (err SdoClientError.malformed_response) (λ resp. ok resp), inbox)
    else rest

module _ {N : Type 0} where
  -- `sender.send(request.to_can_message(self.req_cob_id)).await.unwrap()`
  unfoldable pub send : Network N → SdoRequest → Client N → Option (Client N)
  unfolding Encode.to_can_message
  send network request client = maybe (Encode.to_can_message request client.req_cob_id) none λ msg.
      maybe (network msg client.network) none
        λ (arrived, n). some (record client { inbox = client.inbox ++ arrived; network = n })

  -- A request and the response to it; an error of the wait ends the method.
  unfoldable pub exchange :
      {A : Type 0}
      → Network N
      → SdoRequest
      → Client N
      → (SdoResponse → Client N → Ends N A)
      → Ends N A
  unfolding send wait_for_response
  exchange network request client next = maybe (send network request client) none λ client1.
      let (answer, inbox) = wait_for_response client1.resp_cob_id client1.inbox in
      let client2 = record client1 { inbox = inbox } in
      either answer (λ e. some (err e, client2)) (λ resp. next resp client2)

  -- The arms of `match_response!` behind the expected one.
  unfoldable pub unmatched : {A : Type 0} → AbortCodeOf → SdoResponse → Client N → Ends N A
  unfolding raw_abort_code
  unmatched of_code (SdoResponse.abort index sub abort_code) client =
      some (err (SdoClientError.server_abort index sub (raw_abort_code of_code abort_code)), client)
  unmatched of_code response client =
      some (err (SdoClientError.unexpected_response response), client)

  -- The wrong toggle bit is answered with an abort.
  unfoldable pub wrong_toggle : {A : Type 0} → Network N → ℕ → ℕ → Client N → Ends N A
  unfolding send Build.abort
  wrong_toggle network index sub client =
      maybe (send network (Build.abort index sub AbortCode.toggle_not_alternated) client) none
        λ client1. some (err SdoClientError.toggle_not_alternated, client1)
