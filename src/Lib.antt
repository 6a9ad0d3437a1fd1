-- ===== src/Lib.antt =====
-- A verification of zencan, a CANopen stack: the SDO protocol between a client and the objects of a
-- node, event flags, PDOs, the LSS protocol between a master and its slaves, NMT, stored values, and the
-- node that runs them all. An SDO client reads and writes the objects of a node by frames of eight
-- bytes. On the node, the mailbox takes the frames as they come, and `Node::process` runs the SDO server
-- on what the mailbox has; the server reads and writes the objects of the object dictionary and answers
-- with one frame at most. A PDO carries the values of several objects in one frame. An LSS master finds
-- nodes without a node ID and gives them one. An NMT master commands the states of the nodes, which tell
-- it their states in heartbeats.
--
-- The files and what they model:
--   Can        zencan-common/src/messages.rs: `CanId`, `CanMessage`, the reserved identifiers.
--   Nmt        the same file: NMT commands, NMT states and heartbeats. Message has `ZencanMessage`.
--   Sdo        zencan-common/src/sdo.rs: `AbortCode` (Sdo/Abort), `SdoRequest` and `SdoResponse` with
--              their constructor functions (Build), `to_bytes` and `to_can_message` (Encode), `try_from`
--              (Decode), and `BlockSegment` (Sdo/Segment).
--   Objects    zencan-common/src/objects.rs: object identifiers, data types, `SubInfo`.
--   Dict       zencan-node/src/object_dict/objects.rs: `ObjectAccess`, the table, `find_object_entry`.
--   Fields     zencan-node/src/object_dict/sub_objects.rs: `ByteField`, `NullTermByteField`,
--              `ConstField`; Fields/Provided has the objects made of sub objects.
--   Flags      zencan-node/src/object_dict/object_flags.rs: event flags and their toggle.
--   Server     zencan-node/src/sdo_server: `SdoReceiver` (Server/Receiver), and `SdoServer` with a
--              handler for each of its states: `idle` (Server/Idle), `download_segmented` and
--              `upload_segmented` (Server/Segmented), `download_block` and `end_download_block`
--              (Server/Block). Server/Transfer has the theory of a segmented download,
--              Server/Receiver/Gaps what a missing segment of a block does.
--   Pdo        zencan-node/src/pdo.rs: `Pdo`, the objects that configure it (Pdo/Comm, Pdo/Mapping), when
--              it is sent for a SYNC (Pdo/Sync) and the values in its data (Pdo/Data).
--   Lss        zencan-node/src/lss_slave.rs: `LssReceiver` and `LssSlave`, with node IDs and
--              identities from zencan-common. Lss/Message has the frames of zencan-common/src/lss.rs,
--              Lss/Master the master of zencan-client/src/lss_master.rs, with the theory of its fast scan.
--   Persist    zencan-node/src/persist.rs: what is stored for the persisted objects, the reader of the
--              stored nodes and the restoring of their values. Persist/Kept says which value each
--              object has afterwards.
--   Node       zencan-node/src/node.rs, node_mbox.rs and node_state.rs: `NodeMbox::store_message`
--              (Node/Mailbox) and `Node::process` (Node/Process), which runs the parts above: booting
--              (Node/Boot), SDO, NMT, LSS, heartbeats and PDOs (Node/Pdos). Node/Commands writes out the
--              NMT state machine that the code is compared with.
--   NmtMaster  zencan-client/src/nmt_master.rs: the table of nodes that heartbeats fill.
--   Client     zencan-client/src/sdo_client.rs: `SdoClient::download` and `SdoClient::upload`.
--   Bus        what `NodeMbox::store_message` and `Node::process` of zencan-node do with an SDO frame.
--   Examples   concrete runs.
--
-- How the code is written here. A method that changes its object takes the state and gives the state
-- after it. The objects share one state `S`, since they store behind shared references; a handler is
-- given the receiver and the objects and returns both with its result. A panic is `none`. A number is
-- a natural number with the wrap-around of its type written out, as in a build without
-- overflow checks. The receiver and the server run on
-- two threads; a method of the receiver is one step, and `process` is not interrupted.
--
-- What is a parameter. The check sum of the crate crc16 is a record of its three functions. The
-- conversion of a `u32` to an `AbortCode` is made by the crate int_enum, and is a function that the
-- client is given; nothing is asked of it. The traits of the CAN socket are a function that takes a
-- frame and says which frames come back before the client's timeout. Objects are records of functions;
-- what a segmented download relies on is the contract `Server.Transfer.Store.Store`, for objects that
-- take writes and partial writes of any length up to a capacity. `ByteField` keeps it; objects of a
-- fixed length without partial writes, such as `ScalarField`, do not.
--
-- Bounds. A segmented transfer has fewer than 2^32 segments, since `segment_counter` is a `u32`. The
-- buffer has at least seven bytes; the node's has 889. The loop of `SdoClient::upload` ends when the
-- server says so, and is modelled on fuel; nothing is claimed of it.
--
-- Restoring stored values is recursion on fuel, one more than the bytes that are stored, since each
-- round takes two bytes at least.
--
-- The scan of the LSS master is recursion on the bits and words that are left, so it ends.
--
-- Not modelled: the typed reads and writes of the client and its block download, `ScalarField` and the
-- callback objects, the storage command object, the bootloader, device configurations,
-- the generation of code and the command line tools.
pub mod Base
pub mod Can
pub mod Message
pub mod Nmt
pub mod NmtMaster
pub mod Node
pub mod Sdo
pub mod Objects
pub mod Dict
pub mod Fields
pub mod Flags
pub mod Server
pub mod Lss
pub mod Pdo
pub mod Persist
pub mod Client
pub mod Bus
pub mod Examples
