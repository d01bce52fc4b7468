-- ===== src/Lib.antt =====
-- lodos, a game server framework: its MQTT gate, the calls between its modules, and the modules of a process.
--
-- A TCP or WebSocket connection of the gate is served by a Client (gate/base/mqtt/mqtt_client_server.go). It has a
-- PackQueue (pack_queue.go) with two loops of their own: ReadPackInLoop reads packets with ReadPack
-- (mqtt.go) and hands them to the client by a channel, writeLoop takes the packets that the client asks it to
-- write off another channel and writes them with WritePack or DelayWritePack. The client's Listen_loop passes
-- each packet to waitPack, which queues the answers and hands messages to the layer above by OnRecover.
-- That layer is the agent of the connection (gate/base/mqtt_agent.go): it finds the module that the topic names by
-- GetRouteServer of the application (app/app.go), calls a function of it through an RPC client
-- (rpc/base/rpc_client.go) and writes the answer to its client. Inside a process the client writes the request
-- to the RPC server of the module (rpc/base/local_client.go, local_server.go, rpc_server.go), and the server's
-- result comes back to the caller by its id. Which modules a process runs is the work of the module manager
-- (app/module_manager.go), by a configuration (conf/conf.go). The gate handler (gate/base/gate_handler.go) serves calls of other modules on sessions.
--
-- The files:
--   Base        the library names of the development, and its lemmas on tests, lists and bits.
--   Io          results of code that may return an error or panic, the bufio.Reader as the bytes that are still to
--               come (Io/Reader), the bufio.Writer as what was sent, what is buffered and which of the
--               next calls on the connection fail (Io/Writer), and what it means that an operation
--               answers every stream (Io/Reader/Sound) or writes given bytes (Io/Writer/Writes, Stream).
--   Mqtt/Kinds, Mqtt/Pack      the packet types and the packets of mqtt.go, records with the fields of the structs;
--                              a nil pointer is `none`, the interface field `variable` a sum.
--   Mqtt/Length, Mqtt/Read, Mqtt/Write   the length field, ReadPack and DelayWritePack of mqtt.go, one function for each
--                              case of their switches and for each loop.
--   Mqtt/Message               what a packet says, the bytes that say it, and the bounds of its fields: the
--                              specification that the reader and the writer are compared with.
--   Mqtt/Queue                 pack_queue.go: a request of a caller and a round of writeLoop are steps,
--                              and every interleaving is a list of steps.
--   Mqtt/Client                mqtt_client_server.go: waitPack and the message ids; OnRecover appends to a list.
--   Utils/BeeMap               the interface of the map of utils/safemap.go, a copy of that of beego, and its laws; a list of
--                              pairs that has them (Utils/BeeMap/Pairs) for the concrete runs.
--   Utils/Numbers, Rpc/Args    utils/params_bytes.go and rpc/argsutil/argsutil.go: the arguments of remote calls.
--   Rpc/Info                   RPCInfo and ResultInfo of rpc/pb, and the codes of rpc/base/error.go.
--   Rpc/Server                 rpc/base/rpc_server.go: on_call_handle and runFunc on the functions of a module. A function is a
--                              parameter: it returns values, panics, or is not done in time.
--   Rpc/Local                  rpc/base/local_client.go and local_server.go: the calls that wait for a result, each on the
--                              channel of its caller; calls, results, seconds and the end are events.
--   Rpc/Client                 rpc/base/rpc_client.go: Call, from the parameters to the results, and the calls that do not wait
--                              for a result (Rpc/Client/Later).
--   Gate/Session, Gate/Handler gate/base/session.go (its data, Set, Remove and Get) and gate/base/gate_handler.go: the
--                              sessions of the gate and the operations on them, on an agent's Client.
--   Gate/Recover               OnRecover of gate/base/mqtt_agent.go, on an agent that has logged in; the application, the
--                              modules and the clock are a record of functions.
--   Gate/Login                 Run of the agent up to Listen_loop, with NewSessionByMap and updateMap of gate/base/session.go.
--   App, App/Manager           app/app.go: OnInit, the routes and GetRouteServer; app/module_manager.go. The maps of settings
--                              and of servers are lists in the order of a range over them, which the
--                              theorems leave open.
--   App/Unique                 settings that name each module once: what the two checks of settings are compared with.
--   Gate/Remote                the calls of gate/base/session.go to the gate of a session; the servers of the application
--                              are a record of functions, which Gate/Remote/Served fills with the operations of
--                              Gate/Handler under the names that gate/base/mqtt_gate.go registers; Gate/Remote/Wire is
--                              what a call goes through on its way: it may be late, and formats may lose something.
--   Network                    network/: the sets of connections (Conns), the servers of TCP and WebSocket connections, the TCP
--                              client, TCPConn and the reads of WSConn. The goroutines of each take turns in a step
--                              relation, at every lock and every call that waits; Network/Turns is what
--                              ws_server.go and tcp_client.go have in common. A socket is what its calls do or give.
--   Rpc/Broker                 rpc/base/amqp_client.go and redis_client.go, on a broker that is a record of functions.
--   Conf                       conf/conf.go: readFileInto on the bytes of the file, and LoadConfig.
--   Ver, Ver/Exchange          addon/ver/base/exchange_verify.go and data.go, with Redis and encoding/json as a record of
--                              functions; an int is its 64 bits.
--   Seq                        addon/seq/base/section.go: the sequence numbers of users, an int64 as its 64 bits.
--   Runs (under each part)     concrete runs and the theorems at concrete inputs.
--
-- A byte is a natural number that the code computes with `%` and `/` where the source masks and shifts; an
-- int of the source is a natural number, and where the source goes below zero the comparison is written
-- so that it does not. The loops over the topics of a packet run on fuel, one more than the length of the packet,
-- which falls in each round; ReadPackInLoop runs on the bytes of its stream plus one, since each packet takes one byte at
-- least, and readFileInto likewise. `stuck` is the result of a loop without fuel.
--
-- Not modelled: deadlines, TLS and the closing of Go channels but those of calls; a full channel, which makes
-- its senders wait; the log; the servers behind the brokers of remote calls and their connections, the goroutines of
-- modules and their counters, the traces of requests, the servers around
-- the sections and the verification service, which are stubs, network/ws_client.go, which repeats
-- tcp_client.go, and the copies of other libraries that the repository holds.
pub mod App
pub mod Base
pub mod Conf
pub mod Gate
pub mod Io
pub mod Mqtt
pub mod Network
pub mod Rpc
pub mod Seq
pub mod Utils
pub mod Ver
