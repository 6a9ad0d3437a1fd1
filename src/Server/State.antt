-- ===== src/Server/State.antt =====
-- The state of the SDO server and the results of its handlers, from
-- zencan-node/src/sdo_server/sdo_server.rs.
use zencan.Base.{ℕ, Bool, List, Option, none, some, Result, ok, err, ltb, ◌||◌, ◌==◌, if◌then◌else◌}
use zencan.Objects.{ObjectId, SubInfo, is_str, is_domain}
use zencan.Dict.{OdEntry}
use zencan.Sdo.Abort.{AbortCode}
use zencan.Sdo.Response.{SdoResponse}
use zencan.Sdo.Response.Build
use zencan.Server.Receiver.{SdoReceiver}

abbrev pub blksize : ℕ
blksize = 127

abbrev pub sdo_timeout_us : ℕ
sdo_timeout_us = 25000

-- The crate `crc16`: the running check sum XMODEM. It is updated byte by byte, so a split of the data
-- does not change it.
pub record Crc : Type 0 where
  pub init : ℕ
  pub update : ℕ → List ℕ → ℕ
  pub get : ℕ → ℕ

unfoldable pub validate_download_size : ℕ → SubInfo → Result AbortCode (Unit {0})
unfolding is_str
validate_download_size dl_size subobj =
    if subobj.size == 0
    then ok tt
    else if is_str subobj.data_type || is_domain subobj.data_type
    then if ltb subobj.size dl_size then err AbortCode.data_type_mismatch_length_high else ok tt
    else if ltb dl_size subobj.size
    then err AbortCode.data_type_mismatch_length_low
    else if ltb subobj.size dl_size
    then err AbortCode.data_type_mismatch_length_high
    else ok tt

pub record Segmented (S : Type 0) : Type 0 where
  pub entry : OdEntry S
  pub sub : ℕ
  pub toggle_state : Bool
  pub segment_counter : ℕ
  pub bytes_in_buffer : Option ℕ

pub record DownloadBlock (S : Type 0) : Type 0 where
  pub sub : ℕ
  pub last_segment : ℕ
  pub client_supports_crc : Bool
  pub crc : ℕ
  pub block_counter : ℕ
  pub entry : OdEntry S

pub data SdoState (S : Type 0) : Type 0 where
  idle : SdoState S
  download_segmented : Segmented S → SdoState S
  upload_segmented : Segmented S → SdoState S
  download_block : DownloadBlock S → SdoState S
  end_download_block : DownloadBlock S → SdoState S

pub record SdoResult (S : Type 0) : Type 0 where
  pub response : Option SdoResponse
  pub updated_object : Option ObjectId
  pub new_state : SdoState S

-- What a handler leaves behind: its result, the receiver and the objects.
pub record Outcome (S : Type 0) : Type 0 where
  pub result : SdoResult S
  pub rx : SdoReceiver
  pub od : S

module _ {S : Type 0} where
  -- The functions of `SdoResult`, with the receiver and the objects passed on. `none` is a panic.
  abbrev pub no_response : SdoState S → SdoReceiver → S → Option (Outcome S)
  no_response state rx od = some (record {
    result = record { response = none; updated_object = none; new_state = state };
    rx = rx;
    od = od;
  })

  unfoldable pub aborted : ℕ → ℕ → AbortCode → SdoReceiver → S → Option (Outcome S)
  unfolding Build.abort
  aborted index sub abort_code rx od = some (record {
    result = record {
      response = some (Build.abort index sub abort_code);
      updated_object = none;
      new_state = SdoState.idle;
    };
    rx = rx;
    od = od;
  })

  abbrev pub respond : SdoResponse → SdoState S → SdoReceiver → S → Option (Outcome S)
  respond response state rx od = some (record {
    result = record { response = some response; updated_object = none; new_state = state };
    rx = rx;
    od = od;
  })

  abbrev pub respond_with_update :
      SdoResponse → ℕ → ℕ → SdoState S → SdoReceiver → S → Option (Outcome S)
  respond_with_update response index sub state rx od = some (record {
    result = record {
      response = some response;
      updated_object = some (record { index = index; sub = sub });
      new_state = state;
    };
    rx = rx;
    od = od;
  })

  -- A call of a method that may fail, whose error ends the handler.
  abbrev pub attempt :
      {A B : Type 0} → Result AbortCode A × S → (AbortCode → S → B) → (A → S → B) → B
  attempt (ok a, od) fail next = next a od
  attempt (err e, od) fail next = fail e od

-- A panic unless the test passes.
abbrev pub require {ℓ} : {A : Type ℓ} → Bool → Option A → Option A
require test next = if test then next else none
