-- ===== src/Server/Aborts.antt =====
-- An abort ends the transfer: whatever the server answers with an abort leaves it idle.
use mathlib.Core.Path.{subst}
use zencan.Base.{
  ℕ, ◌≡◌, refl, Bool, true, false, List, Option, none, some, Result, ok, err, arith, either, maybe,
  length, take, copy_at,
}
use zencan.Dict.{OdEntry, find_object_entry}
use zencan.Sdo.Abort.{AbortCode}
use zencan.Sdo.Request.{SdoRequest}
use zencan.Sdo.Response.{SdoResponse}
use zencan.Server.{update}
use zencan.Server.Receiver.{SdoReceiver}
use zencan.Server.State.{Crc, Segmented, DownloadBlock, SdoState, Outcome, aborted, no_response}
use zencan.Objects.{SubInfo}
use zencan.Server.Idle.{
  idle, idle_request, expedited_download, begin_segmented, begin_upload, begin_block, with_object,
}
use zencan.Server.Segmented.{
  waiting, download_segmented, upload_segmented, download_request, upload_request,
}
use zencan.Server.Segmented.Download.{
  Plan, plan, wrapped, completed, end_download, write_whole, next_segment, finish_segment,
  flush_buffer, store_segment, receive_segment,
}
use zencan.Server.Segmented.Upload.{send_segment}
use zencan.Server.Block.{download_block, end_download_block}

abbrev IsAbort : Option SdoResponse → Type 0
IsAbort (some (SdoResponse.abort i j c)) = Unit {0}
IsAbort _ = ⊥

module _ {S : Type 0} where
  -- A panic, or an outcome that is idle and reports no object if it answers with an abort.
  abbrev pub Stops : Option (Outcome S) → Type 0
  Stops none = Unit {0}
  Stops (some o) =
      IsAbort o.result.response
      → (o.result.new_state ≡ SdoState.idle) × (o.result.updated_object ≡ none)

  module _ (st : Segmented S) (value : List ℕ) (rx : SdoReceiver) where
    end_Stops : (p : Plan) (buf : List ℕ) (od : S) → Stops (end_download st value rx p buf od)
    unfolding end_download completed aborted
    end_Stops p buf od = ground arith

    whole_Stops : (p : Plan) (buf : List ℕ) (od : S) → Stops (write_whole st value rx p buf od)
    unfolding write_whole completed aborted
    whole_Stops p buf od = ground arith

    next_Stops : (p : Plan) (buf : List ℕ) (od : S) → Stops (next_segment st value rx p buf od)
    unfolding next_segment
    next_Stops p buf od = ground arith

    finish_Stops :
        (p : Plan) (c : Bool) (buf : List ℕ) (od : S)
        → Stops (finish_segment st value rx p c buf od)
    unfolding finish_segment
    finish_Stops p c buf od =
        let at_end = end_Stops p buf od in
        let at_whole = whole_Stops p buf od in let at_next = next_Stops p buf od in ground arith

    flush_Stops :
        (p : Plan) (c : Bool) (buf : List ℕ) (od : S) → Stops (flush_buffer st value rx p c buf od)
    unfolding flush_buffer aborted
    flush_Stops p c buf od =
        let (answer, od1) = st.entry.object.write_partial st.sub buf od in
        let with_rest = finish_Stops p c (wrapped st value rx p buf) od1 in
        let alone = finish_Stops p c buf od1 in ground arith

    store_Stops : (p : Plan) (c : Bool) (od : S) → Stops (store_segment st value rx p c od)
    unfolding store_segment aborted
    store_Stops p c od =
        let buf = copy_at p.buffer_offset (take p.copy_len value) rx.buffer in
        let (answer, od1) = st.entry.object.begin_partial st.sub od in
        let begun = flush_Stops p c buf od1 in
        let open_before = flush_Stops p c buf od in
        let kept = finish_Stops p c buf od in ground arith

  receive_Stops :
      (st : Segmented S) (n : ℕ) (c : Bool) (value : List ℕ) (rx : SdoReceiver) (od : S)
      → Stops (receive_segment st n c value rx od)
  unfolding receive_segment
  receive_Stops st n c value rx od =
      let stored = store_Stops st value rx (plan (length rx.buffer) st.segment_counter n) c od in
      ground arith

  send_Stops : (st : Segmented S) (rx : SdoReceiver) (od : S) → Stops (send_segment st rx od)
  unfolding send_segment
  send_Stops st rx od = ground arith

  download_request-Stops :
      (st : Segmented S) (r : SdoRequest) (rx : SdoReceiver) (od : S)
      → Stops (download_request st r rx od)
  unfolding download_request aborted
  download_request-Stops st (SdoRequest.download_segment t n c value) rx od =
      let received = receive_Stops st n c value rx od in ground arith
  download_request-Stops st r rx od = ground arith

  upload_request-Stops :
      (st : Segmented S) (r : SdoRequest) (rx : SdoReceiver) (od : S)
      → Stops (upload_request st r rx od)
  unfolding upload_request aborted
  upload_request-Stops st (SdoRequest.req_upload_segment t) rx od =
      let sent = send_Stops st rx od in ground arith
  upload_request-Stops st r rx od = ground arith

  module _ (crc16 : Crc) (table : List (OdEntry S)) where
    expedited_Stops :
        (entry : OdEntry S) (info : SubInfo) (n index sub : ℕ) (value : List ℕ) (rx : SdoReceiver)
        (od : S)
        → Stops (expedited_download crc16 table entry info n index sub value rx od)
    unfolding expedited_download aborted
    expedited_Stops entry info n index sub value rx od = ground arith

    begin_Stops :
        (entry : OdEntry S) (info : SubInfo) (s : Bool) (index sub : ℕ) (value : List ℕ)
        (rx : SdoReceiver) (od : S)
        → Stops (begin_segmented crc16 table entry info s index sub value rx od)
    unfolding begin_segmented aborted
    begin_Stops entry info s index sub value rx od = ground arith

    upload_Stops :
        (entry : OdEntry S) (index sub : ℕ) (rx : SdoReceiver) (od : S)
        → Stops (begin_upload crc16 table entry index sub rx od)
    unfolding begin_upload aborted
    upload_Stops entry index sub rx od = ground arith

    begin_block-Stops :
        (entry : OdEntry S) (info : SubInfo) (crc s : Bool) (index sub size : ℕ) (rx : SdoReceiver)
        (od : S)
        → Stops (begin_block crc16 table entry info crc s index sub size rx od)
    unfolding begin_block aborted
    begin_block-Stops entry info crc s index sub size rx od = ground arith

    with_object-Stops :
        (index sub : ℕ) (rx : SdoReceiver) (od : S)
        (next : OdEntry S → SubInfo → Option (Outcome S))
        → ((entry : OdEntry S) (info : SubInfo) → Stops (next entry info))
        → Stops (with_object crc16 table index sub rx od next)
    unfolding with_object aborted
    with_object-Stops index sub rx od next all = with_entry (find_object_entry table index)
      where
        with_info :
            (entry : OdEntry S) (info : Result AbortCode SubInfo)
            → Stops (either info (λ c. aborted index sub c rx od) (λ i. next entry i))
        with_info entry (ok info) = all entry info
        with_info entry (err e) = λ h. (refl, refl)

        with_entry :
            (found : Option (OdEntry S))
            → Stops (
                maybe found (aborted index sub AbortCode.no_such_object rx od) (λ entry.
                  either
                    (entry.object.sub_info sub od)
                    (λ c. aborted index sub c rx od)
                    (λ i. next entry i)))
        with_entry none = λ h. (refl, refl)
        with_entry (some entry) = with_info entry (entry.object.sub_info sub od)

    idle_Stops :
        (r : SdoRequest) (rx : SdoReceiver) (od : S) → Stops (idle_request crc16 table r rx od)
    unfolding idle_request aborted
    idle_Stops (SdoRequest.initiate_download n true s index sub value) rx od =
        with_object-Stops index sub rx od _
          (λ entry info. expedited_Stops entry info n index sub value rx od)
    idle_Stops (SdoRequest.initiate_download n false s index sub value) rx od =
        with_object-Stops index sub rx od _
          (λ entry info. begin_Stops entry info s index sub value rx od)
    idle_Stops (SdoRequest.initiate_upload index sub) rx od =
        entry_Stops (find_object_entry table index)
      where
        entry_Stops :
            (found : Option (OdEntry S))
            → Stops (
                maybe found
                  (aborted index sub AbortCode.no_such_object rx od)
                  (λ entry. begin_upload crc16 table entry index sub rx od))
        entry_Stops none = λ h. (refl, refl)
        entry_Stops (some entry) = upload_Stops entry index sub rx od
    idle_Stops (SdoRequest.initiate_block_download crc s index sub size) rx od =
        with_object-Stops index sub rx od _
          (λ entry info. begin_block-Stops entry info crc s index sub size rx od)
    idle_Stops r rx od = ground arith

    block_Stops :
        (st : DownloadBlock S) (rx : SdoReceiver) (elapsed : ℕ) (od : S)
        → Stops (download_block crc16 st rx elapsed od)
    unfolding download_block aborted
    block_Stops st rx elapsed od = ground arith

    end_block_Stops :
        (st : DownloadBlock S) (rx : SdoReceiver) (elapsed : ℕ) (od : S)
        → Stops (end_download_block crc16 st rx elapsed od)
    unfolding end_download_block waiting aborted
    end_block_Stops st rx elapsed od = ground arith

    waiting-Stops :
        (state : SdoState S) (entry : OdEntry S) (sub : ℕ) (rx : SdoReceiver) (elapsed : ℕ) (od : S)
        → Stops (waiting state entry sub rx elapsed od)
    unfolding waiting aborted
    waiting-Stops state entry sub rx elapsed od = ground arith

    update_Stops :
        (state : SdoState S) (rx : SdoReceiver) (elapsed : ℕ) (od : S)
        → Stops (update crc16 table state rx elapsed od)
    unfolding update idle download_segmented upload_segmented
    update_Stops SdoState.idle rx elapsed od = by_request rx.request
      where
        by_request :
            (r : Option SdoRequest)
            → Stops (
                maybe r
                  (no_response SdoState.idle (record rx { request = none }) od)
                  (λ req. idle_request crc16 table req (record rx { request = none }) od))
        by_request none = λ h. absurd h
        by_request (some r) = idle_Stops r (record rx { request = none }) od
    update_Stops (SdoState.download_segmented st) rx elapsed od = by_request rx.request
      where
        by_request :
            (r : Option SdoRequest)
            → Stops (
                maybe r
                  (waiting
                    (SdoState.download_segmented st)
                    st.entry
                    st.sub
                    (record rx { request = none })
                    elapsed
                    od)
                  (λ req. download_request st req (record rx { request = none }) od))
        by_request none =
            waiting-Stops (SdoState.download_segmented st) st.entry st.sub
              (record rx { request = none }) elapsed od
        by_request (some r) = download_request-Stops st r (record rx { request = none }) od
    update_Stops (SdoState.upload_segmented st) rx elapsed od = by_request rx.request
      where
        by_request :
            (r : Option SdoRequest)
            → Stops (
                maybe r
                  (waiting
                    (SdoState.download_segmented st)
                    st.entry
                    st.sub
                    (record rx { request = none })
                    elapsed
                    od)
                  (λ req. upload_request st req (record rx { request = none }) od))
        by_request none =
            waiting-Stops (SdoState.download_segmented st) st.entry st.sub
              (record rx { request = none }) elapsed od
        by_request (some r) = upload_request-Stops st r (record rx { request = none }) od
    update_Stops (SdoState.download_block st) rx elapsed od = block_Stops st rx elapsed od
    update_Stops (SdoState.end_download_block st) rx elapsed od = end_block_Stops st rx elapsed od

    -- Whatever the state, the request and the objects: if the server answers with an abort, the
    -- transfer is over. The server is idle and reports no object as updated.
    pub abort_Idle :
        (state : SdoState S) (rx : SdoReceiver) (elapsed : ℕ) (od : S) (o : Outcome S)
        (index sub abort_code : ℕ)
        → update crc16 table state rx elapsed od ≡ some o
        → o.result.response ≡ some (SdoResponse.abort index sub abort_code)
        → (o.result.new_state ≡ SdoState.idle) × (o.result.updated_object ≡ none)
    abort_Idle state rx elapsed od o index sub abort_code e answered =
        subst Stops e (update_Stops state rx elapsed od) (rw answered tt)
