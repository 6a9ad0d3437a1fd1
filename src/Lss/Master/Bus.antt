-- ===== src/Lss/Master/Bus.antt =====
-- The slaves on a bus: what `NodeMbox::store_message` of zencan-node/src/node_mbox.rs and
-- `Node::process` of zencan-node/src/node.rs do with an LSS request, and the frames that come back.
use zencan.Base.{List, [], ◌∷◌, ◌++◌, Option, none, some, either, maybe, if◌then◌else◌}
use zencan.Can.{CanMessage, payload, same_id, lss_req_id, lss_resp_id}
use zencan.Client.{Network}
use zencan.Lss.{LssReceiver, LssSlave, handle_req, process, pending_event}
use zencan.Lss.Message.Request.{from_bytes}
use zencan.Lss.Message.Response.{to_can_message}

pub record Slave : Type 0 where
  pub rx : LssReceiver
  pub slave : LssSlave

-- `store_message`, as to LSS: an invalid request is not taken.
unfoldable pub store_lss : CanMessage → LssReceiver → LssReceiver
unfolding from_bytes handle_req
store_lss msg rx =
    if same_id msg.id lss_req_id
    then either (from_bytes (payload msg)) (λ e. rx) (λ lss_req. (handle_req rx lss_req).1)
    else rx

-- `process`, as to LSS: the response is sent, and the slave is asked for its event, which is left to
-- the node. `none` is a panic.
unfoldable pub run_lss : Slave → Option (List CanMessage × Slave)
unfolding process pending_event to_can_message
run_lss node =
    let (rx, processed) = process node.rx node.slave in
    maybe processed none λ (result, slave). some (
      either result (λ e. ([], record { rx = rx; slave = slave }))
        λ response.
          maybe response ([], record { rx = rx; slave = slave })
            λ resp. (
              to_can_message resp lss_resp_id ∷ [],
              record { rx = rx; slave = (pending_event slave).1 },
            ))

-- Every slave takes the frame; one that panics is heard no more.
unfoldable pub deliver_all : CanMessage → List Slave → List CanMessage × List Slave
unfolding store_lss run_lss
deliver_all msg [] = ([], [])
deliver_all msg (node ∷ nodes) =
    let (answers, nodes') = deliver_all msg nodes in
    maybe (run_lss (record node { rx = store_lss msg node.rx })) (answers, nodes')
      λ (response, node'). (response ++ answers, node' ∷ nodes')

unfoldable pub bus : Network (List Slave)
unfolding deliver_all
bus msg nodes = some (deliver_all msg nodes)
