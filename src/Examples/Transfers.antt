-- ===== src/Examples/Transfers.antt =====
-- The theorems on single segments, blocks and errors at concrete inputs.
use zencan.Base.{
  ℕ, ◌+◌, ◌≤◌, ◌<◌, ◌≡◌, refl, inl, true, false, List, [], ◌∷◌, ◌++◌, none, some, ok, arith, All,
  take, replicate,
}
use zencan.Sdo.Abort.{AbortCode, code}
use zencan.Sdo.Request.{SdoRequest}
use zencan.Sdo.Response.{SdoResponse}
use zencan.Fields.{and_then}
use zencan.Fields.Bytes
use zencan.Fields.Bytes.{ByteField}
use zencan.Fields.NullTerm
use zencan.Fields.Stored.{byte_store, write_parts, partial-write}
use zencan.Fields.Strings.{NotZero, read-write}
use zencan.Server.{Processed, process, update}
use zencan.Server.Aborts.{abort_Idle}
use zencan.Server.Errors.{upload_interrupted, download_timeout}
use zencan.Server.Receiver.{SdoReceiver, ReceiverState, store_segment}
use zencan.Server.Receiver.Blocks.{receive_all, receive_block, joined}
use zencan.Server.Segmented.{download_segmented, waiting}
use zencan.Server.State.{Segmented, DownloadBlock, SdoState, Outcome, aborted}
use zencan.Server.Transfer.Progress.{Progress, Received, receive_middle}
use zencan.Server.Transfer.Complete.{Completes, receive_last}
use zencan.Examples.Delivery.{sum, info, subs, entry, table, field, receiver, writable}

abbrev seven : List ℕ
seven = 1 ∷ 2 ∷ 3 ∷ 4 ∷ 5 ∷ 6 ∷ 7 ∷ []

abbrev more : List ℕ
more = 8 ∷ 9 ∷ 10 ∷ 11 ∷ 12 ∷ 13 ∷ 14 ∷ []

-- A receiver that has one segment in a buffer of ten bytes.
abbrev holding : SdoReceiver
holding = record receiver { buffer = seven ++ (0 ∷ 0 ∷ 0 ∷ []) }

one_received :
    Progress entry 1 16
      (byte_store subs 1 field.value info refl writable)
      10
      1
      seven
      holding.buffer
      field
unfolding byte_store
one_received = Progress.first (omega arith) refl refl

receive_middle_example :
    Received entry 1 16
      (byte_store subs 1 field.value info refl writable)
      1
      true
      more
      holding
      seven
      field
receive_middle_example =
    receive_middle entry 1 16 (byte_store subs 1 field.value info refl writable) 1 true more holding
      seven field (omega arith) refl (omega arith) (omega arith) one_received

long : 7 ≤ 10
long = omega arith

unused : 2 < 8
unused = omega arith

all_fit : 12 ≤ 16
all_fit = omega arith

receive_last_example :
    Completes entry 1 16
      (byte_store subs 1 field.value info refl writable)
      1
      true
      2
      more
      holding
      seven
      field
      long
      refl
      unused
      all_fit
receive_last_example =
    receive_last entry 1 16 (byte_store subs 1 field.value info refl writable) 1 true 2 more holding
      seven field long refl unused all_fit one_received

-- A receiver of blocks of up to two segments.
abbrev in_block : SdoReceiver
in_block = record receiver {
  state = ReceiverState.block_receive;
  buffer = replicate 14 0;
  blksize = 2;
}

receive_block_example :
    (rx' : SdoReceiver) × (store_segment (receive_all in_block (seven ∷ [])) (record {
      c = false;
      seqnum = (receive_all in_block (seven ∷ [])).last_seqnum + 1;
      payload = more;
    })
      ≡ (true, rx'))
    × (rx'.state ≡ ReceiverState.block_completed 2 2 false)
    × (take 14 rx'.buffer ≡ joined (seven ∷ []) ++ more)
receive_block_example =
    receive_block (seven ∷ []) more false in_block refl refl (refl, tt) refl (omega arith)
      (omega arith) (inl refl)

abbrev transfer : Segmented ByteField
transfer = record {
  entry = entry;
  sub = 1;
  toggle_state = false;
  segment_counter = 0;
  bytes_in_buffer = some 12;
}

abbrev late : SdoReceiver
late = record receiver { timer = 24000 }

-- What the server makes of the timeout.
abbrev timed_out : Outcome ByteField
timed_out = record {
  result = record {
    response = some (SdoResponse.abort 0x2000 1 0x05040000);
    updated_object = none;
    new_state = SdoState.idle;
  };
  rx = record late { timer = 26000 };
  od = field;
}

time_is_over :
    update sum table (SdoState.download_segmented transfer) late 2000 field ≡ some timed_out
unfolding update download_segmented waiting aborted code
time_is_over = refl

abort_Idle_example :
    (timed_out.result.new_state ≡ SdoState.idle) × (timed_out.result.updated_object ≡ none)
abort_Idle_example =
    abort_Idle sum table (SdoState.download_segmented transfer) late 2000 field timed_out 0x2000 1
      0x05040000 time_is_over refl

download_timeout_example :
    (timer : ℕ) × (update sum table (SdoState.download_segmented transfer) late 2000 field
      ≡ aborted 0x2000 1 AbortCode.sdo_timeout (record late { timer = timer }) field)
download_timeout_example = download_timeout sum table transfer late field 2000 refl (omega arith)

upload_interrupted_example :
    (p : Processed ByteField) × (process sum table
        (record { state = SdoState.upload_segmented transfer; rx = late; od = field })
        1000
      ≡ some p)
    × (p.response ≡ none)
    × (p.server.state ≡ SdoState.download_segmented transfer)
    × (update sum table p.server.state
          (record late { request = some (SdoRequest.req_upload_segment false) })
          0
          field
        ≡ aborted 0x2000 1 AbortCode.invalid_command_specifier
            (record late { request = none })
            field)
upload_interrupted_example =
    upload_interrupted sum table transfer late late field 1000 0 false refl (omega arith)

abbrev block : DownloadBlock ByteField
block = record {
  sub = 1;
  last_segment = 2;
  client_supports_crc = true;
  crc = 0;
  block_counter = 1;
  entry = entry;
}

-- A receiver of blocks of up to four segments.
abbrev in_long_block : SdoReceiver
in_long_block = record receiver {
  state = ReceiverState.block_receive;
  buffer = replicate 28 0;
  blksize = 4;
}

partial-write_example :
    and_then
      (Bytes.begin_partial field)
      (λ f1. and_then (write_parts (seven ∷ more ∷ []) f1) Bytes.end_partial)
    ≡ Bytes.write (seven ++ more) (record field { write_offset = none })
partial-write_example = partial-write field (seven ∷ more ∷ []) (omega arith)

letters : All NotZero (72 ∷ 105 ∷ [])
letters = (λ e. absurd (omega arith), (λ e. absurd (omega arith), tt))

read-write_example :
    (buf' : List ℕ) × (field' : ByteField) × (NullTerm.write (72 ∷ 105 ∷ []) field
      ≡ (ok tt, field'))
    × (NullTerm.read 0 (replicate 20 0) field' ≡ (ok 2, buf', field'))
    × (take 2 buf' ≡ 72 ∷ 105 ∷ [])
read-write_example =
    read-write (72 ∷ 105 ∷ []) (replicate 20 0) field letters (omega arith) (omega arith)
