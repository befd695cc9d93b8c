-- ===== src/Lib.antt =====
-- Verification of fable, a chat server whose roles hand messages to each other: Logic stores a message
-- in MySQL and cuts it into push tasks for Kafka; Job reads the tasks, asks Logic for the routes of the
-- recipients and sends the message to the Comets that hold them; a Comet puts it on the queue of the
-- local connection. Leases in Redis say which Comet instance, and which connection of a user, is the
-- current one.
--
-- Files and the code they model:
-- Prelude: shared helpers. Strings are lists of bytes (Prelude/Text), Go maps with string keys are
--   association lists (Prelude/Dict), a function that returns a value or an error is a Result
--   (Prelude/Results), strconv and sort.Strings are Prelude/Decimal and Prelude/Sort.
-- Wire: the protobuf messages (api/gen/fable/v1) and the push task (internal/dto/im); Wire/Identity has
--   the checks of identities that several packages carry. Codecs stands for the uuid, base64, utf8 and
--   net libraries. Numbers of an enum that the .proto file does not name are not values of the model.
-- Comet/Hub: internal/comet/hub.go. hubState and Hub are the record Hub; `register`, `Unregister`,
--   `Deliver`, `Drain`, `activate`, `closeAll` and `Close` are functions on it; `run` takes commands one
--   after the other. Connections lie on a heap, since the client map and the writers share them.
-- Comet/Validation: internal/comet/validation.go.
-- Comet/Instance: internal/comet/instance.go. The loop of `run` is a list of rounds, each with what the
--   goroutine reads of the clock, the hub, its context and Logic's answer.
-- Comet/Rpc: internal/comet/rpc.go, on the hub, with callers that wait or give up before or after the
--   owner has their command.
-- Comet/Handler: internal/comet/handler.go and websocket.go, as far as they do not drive a socket.
-- Logic/Routing: internal/logic/routing. Script is the Lua program of scripts.go, one function for each
--   operation, over the interface Redis, whose laws are those of GET, SET with PX, and DEL; Store is
--   store.go. Calls are histories of the operations.
-- Logic/Dispatch: internal/logic/dispatch.go.
-- Logic/Messages: internal/logic/messagestore, over the interface Tables. An error of a transaction
--   rolls it back, so an error carries no database.
-- Logic/Service: internal/logic/service.go, with kickWorker of transport.go and ParseJWT of
--   internal/auth/jwt.go. A handler's calls of Redis each meet a time and a database of their own, since
--   other servers may act between them.
-- Logic/Publisher: internal/logic/kafkapush/publisher.go.
-- Job/Batches, Job/Round and Job/Replies: internal/job/routing.go; what the other roles answer, and
--   what the clock and the context say, is the record RoundEnv.
-- Job/Processor: Process in internal/job/processor.go.
-- Job/Consumer: internal/job/consumer.go, one partition.
-- Job/Task, Job/Escapes and Job/Decode: internal/job/task.go; Json stands for encoding/json.
-- Job/Replay: internal/job/replay.go.
--
-- Bounds: a Time is in nanoseconds since year 1. Decimal digits are printed with as much fuel as the
-- number, which is more than its digits; requireUsers has as much fuel as there are ids, of which each
-- round takes one or more; the check of JSON tokens has twice the length of the text and one. Loops
-- over attempts run on the attempts that are left. uint32 fields of a task wrap. Counters of statistics
-- do not wrap.
--
-- Not modelled: goroutines and channels below the order of commands; the driving of HTTP, WebSocket and
-- gRPC; time-outs and failures of Redis; the services of the earlier server; configuration. gorm, Redis,
-- Kafka, encoding/json, the JWT library and the codecs are parameters.
mod Prelude
pub mod Wire
pub mod Comet
pub mod Logic
pub mod Job
