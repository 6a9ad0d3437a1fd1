-- ===== src/Examples/Messages.antt =====
-- The theorems on messages at concrete inputs, and messages that the standard gives as bytes.
use zencan.Base.{ℕ, ◌≡◌, refl, true, List, [], ◌∷◌, some, ok, arith, All, replicate}
use zencan.Base.Bits.{IsByte}
use zencan.Can.{CanId}
use zencan.Sdo.Wire.{at_object}
use zencan.Sdo.Request.{SdoRequest, IsRequest}
use zencan.Sdo.Request.Build
use zencan.Sdo.Request.Encode
use zencan.Sdo.Request.Decode
use zencan.Sdo.Request.RoundTrip as Request
use zencan.Sdo.Request.Validity.{Answer, from_bytes-Answer}
use zencan.Sdo.Response.{SdoResponse, IsResponse}
use zencan.Sdo.Response.Encode as Response
use zencan.Sdo.Response.RoundTrip
use zencan.Sdo.Segment

abbrev request : SdoRequest
request = SdoRequest.initiate_download 2 true true 0x1017 0 (0xe8 ∷ 3 ∷ 0 ∷ 0 ∷ [])

request_IsRequest : IsRequest request
request_IsRequest = grind arith

request_bytes : Encode.to_bytes request ≡ some (0x2b ∷ 0x17 ∷ 0x10 ∷ 0 ∷ 0xe8 ∷ 3 ∷ 0 ∷ 0 ∷ [])
unfolding Encode.to_bytes at_object Encode.download_head
request_bytes = refl

request_round_trip_example : Request.Sent request (Encode.to_bytes request)
request_round_trip_example = Request.from_bytes-to_bytes request request_IsRequest

abbrev bytes : List ℕ
bytes = 0xe0 ∷ replicate 7 0

bytes_IsByte : All IsByte bytes
bytes_IsByte = grind arith

from_bytes-Answer_example : Answer bytes (Decode.from_bytes bytes)
from_bytes-Answer_example = from_bytes-Answer bytes bytes_IsByte

abbrev response : SdoResponse
response = SdoResponse.confirm_block_download true 0x2000 1 127

response_IsResponse : IsResponse response
response_IsResponse = grind arith

response_round_trip_example :
    RoundTrip.Sent (CanId.std 0x581) response (Response.to_can_message response (CanId.std 0x581))
response_round_trip_example =
    RoundTrip.from_message-to_can_message (CanId.std 0x581) response response_IsResponse

expedited_download_empty_example :
    (r : SdoRequest) × (p : List ℕ) × (Build.expedited_download 0x2000 1 [] ≡ some r)
    × (Encode.to_bytes r ≡ some p)
    × (Decode.from_bytes p ≡ ok (SdoRequest.initiate_download 0 true true 0x2000 1 (replicate 4 0)))
expedited_download_empty_example = Request.expedited_download_empty 0x2000 1 (omega arith)

abbrev segment : Segment.BlockSegment
segment = record { c = true; seqnum = 127; payload = replicate 7 0x55 }

segment_round_trip_example : Segment.from_bytes (Segment.to_bytes segment) ≡ some segment
segment_round_trip_example = Segment.segment_round_trip segment (omega arith) refl
