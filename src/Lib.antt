-- ===== src/Lib.antt =====
-- The verification library of lotus_dashboard: a poller that asks a Filecoin node for its state
-- over JSON-RPC and posts a report, and the JSON-RPC package that both ends use.
--
-- The parts, and how they interact:
--   - Common: names that all modules share. Common/Faults has the result type `Result`, which is
--     a value or the fault that stops a goroutine: a panic of Go's run time, a fatal error, or a
--     wait that never ends. Common/Dict models Go's maps as association lists, Common/Unique maps
--     whose keys are listed once, Common/Int the type int64, Common/Lists and Common/Tests the
--     lists and the Boolean tests over the native numbers.
--   - Rpc/Message: the structs of main/rpc that hold data (request, response, frame,
--     clientResponse, respError, Param), over a type `V` for reflect.Value.
--   - Rpc/Util (main/rpc/util.go): processFuncOut and the bytes of a parameter. Rpc/Util/Outputs
--     has the proofs.
--   - Rpc/Handler (main/rpc/handler.go): `register` builds the table of methods and `handle`
--     answers one request; what it does comes as a list of actions, and the fault that ends it
--     (Handler/Actions). Handler/Span is getSpan; Handler/Tables, Handler/Answers,
--     Handler/Returns, Handler/Fails, Handler/Channels, Handler/Http, Handler/Typing,
--     Handler/Calling and Handler/Modes have the proofs.
--   - Rpc/Server (main/rpc/server.go): ServeHTTP, rpcError, handleReader and the start of
--     handleWS; Server/Session is handleWS to its end. Server/Outcomes and Server/Replies have
--     proofs.
--   - Rpc/Websocket (main/rpc/websocket.go): the state of a `wsConn` (Websocket/State) and one
--     function for each of its methods. Websocket/Loop is handleWsConn: the `select` as a step on
--     events, the runs of the loop as a relation, and the deferred cleanup. Websocket/OutChans is
--     handleOutChans; OutTable relates its two tables to a bag of channels, OutIds follows the
--     channels from handleChanOut through the tables, Notices sends its requests to the other
--     end, and Unheard to the receivers there. Starting tells which messages start a handler.
--     Websocket/Writers is the protocol of the goroutines around `writeLK` and `registerCh`:
--     nextWriter, sendRequest and handleOutChans, one shared access at a time; Writers/Ending is
--     the same behind the end of the connection. Routing, Replies, Settled, Closing, Cancelling,
--     Surviving, Forwarding, Dispatch, Subscribed, Writers/Exclusion and Writers/Deadlock have
--     the proofs.
--   - Rpc/Client (main/rpc/client.go): makeRpcFunc, handleRpcCall in front of and behind the
--     exchange, processResponse and processError. Client/Send is sendRequest, Client/Sink is
--     makeOutChan, Client/Connect is NewClient and NewMergeClient, and Client/Closer the closer
--     that these give back. Client/Errors, Client/Closed, Client/Typing, Client/Returns,
--     Client/Plain, Client/Channels, Client/Ids, Client/Connect/Calls, Client/Send/Cancels, and
--     Order, Pending, Drain, Following and Prefix in Client/Sink have the proofs.
--   - Rpc/RoundTrip: a call through the client, the table of methods and the connection;
--     RoundTrip/Calls is such a call as one function, RoundTrip/Outcomes what its caller gets,
--     RoundTrip/Plain the call of a method without a value, RoundTrip/Subscription the call of
--     one that returns a channel, and RoundTrip/Tracing the trace context of a call.
--   - Rpc/Link: a client and a server at the two ends of a websocket, with any number of calls
--     under way at a time: a step is a turn of a loop, a handler that runs, or a message that is
--     sent. Link/Sources, Link/Messages and Link/Sourcing follow what is under way back to its
--     call, Link/Linear compares it with a call alone; Link/Ids has the ids of the calls,
--     Link/Books counts the answers, and Link/Answering the messages of one handler.
--   - Dashboard/Report (main/server/server.go): the report, its POST, and in Report/Conn the
--     websocket of `webconn`. Dashboard/Poll (main/clientrpc.go): one round of the poller and the
--     loop of rounds, over a node whose calls are a parameter. Poll/Calls has the poller's
--     structs and makes each call through Client/Connect, Poll/Remote makes it through
--     RoundTrip/Calls and a server's table of methods; Poll/Machine has the shell commands;
--     Poll/Reports, Poll/Survival, Poll/Healthy and Poll/Refusals have proofs. Dashboard/Local
--     (main/localserver.go): the stand-in node, with its `main` in Local/Server, and in
--     Local/Served a poller that runs against it.
--   - The modules named Examples hold concrete inputs.
-- The client's `sendRequest` hands requests to the loop of `wsConn`, which writes them and
-- answers them from the frames that come in; frames with calls go to `handle` through
-- `register`'s table. The poller makes eight clients each round, one for each call.
--
-- Goroutines that share a state appear as sequences of events on it: the loop takes the cases of
-- its `select` in any order, and the buffer of a remote channel takes messages, closes and the
-- turns of its goroutine in any order. In Websocket/Writers each access of a goroutine to the
-- lock or to the channel is a step, and the steps interleave in any order; Writers/Ending adds
-- the close of `registerCh` and what can follow it. In Link the two loops and the handlers take
-- turns in any order, and requests and messages may overtake each other on their way. Channels,
-- contexts and functions go by numbers, and what a connection does to them is a list of effects,
-- newest first. Elsewhere each critical section is one step.
--
-- Bounds: int64 ids are integers, the counter of requests wraps as int64 does, the counter of
-- output channels and the storage wrap modulo 2^64; that ids differ is stated below the wrap, for
-- fewer than 2^64 channels or requests. No function runs on fuel: the loops go over the lists
-- that the source goes over, or over the events that happen.
--
-- Parameters: reflect, encoding/json, the trace packages, base64, addresses, multiaddresses and
-- the shell are arguments (Reflect, Json, ClientSide, Tracing, Node). What a theorem relies on in
-- them stands among its hypotheses: a call through reflect returns as many results as its
-- function type has (ReturnsOutputs), texts that were encoded decode again (Decodes, Serves), a
-- method gives no channel (NoChannels), decoding into a type gives a value of the type (IsTyped,
-- Decodable), a decoder refuses empty input; for the stand-in, its methods are found and its values
-- can be encoded (Understands). What the other end of a call answers, where a theorem is about the
-- client alone, stands there too (AllAnswer, Gives).
--
-- In Link a handler runs and writes in one step, in which it waits for no lock, a request or a
-- message that is on its way is not lost, and no context of a caller ends: the cancellation that
-- would follow stops the loop. So Link says what never happens to a call; whether its goroutines
-- can go on is the matter of Websocket/Writers, where they can come to wait for each other.
--
-- Not modelled: bytes on the wire, logging and printing, the closing of sockets, time, the
-- getters of clientrpc.go that return nil, and the copies of other projects in main/httptest,
-- main/extern/rleplus and main/extern/filecoin-ffi.
pub mod Common
pub mod Rpc
pub mod Dashboard
