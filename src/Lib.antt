-- ===== src/Lib.antt =====
-- Webdis, an HTTP and WebSocket server in front of Redis.
--
-- A worker thread reads requests from its clients (src/client.c, around http-parser). An HTTP
-- request becomes a command in `cmd_run` (src/cmd.c): the URI is cut at its slashes, an extension
-- chooses the format of the reply, the access rules of the configuration are asked (src/acl.c), a
-- connection is taken from the worker's pool or made for the request (src/pool.c), and the command
-- goes to hiredis with a formatter as its callback (src/formats), which sends the reply as a response
-- (src/http.c). A request that leads to no command gets its response from `worker_process_client`
-- (src/worker.c). A client that upgrades to a
-- WebSocket (src/websocket.c) sends its commands in frames, in JSON or in the protocol of Redis; they
-- pass the same access rules and run on a connection of the client's own.
--
-- The files and what they model:
--   Prelude     byte strings and the functions of the C library that the program calls, decimal
--               numbers, `int`, lists, and the tests on numbers with their rules
--   State       the structs that the components share: src/http.h (`http_header`), src/acl.h,
--               src/conf.h and src/client.h
--   Acl         src/acl.c, and `client_get_header` of src/client.c
--   Conf        src/conf.c: Conf is the access rules, Conf/Settings and Conf/Read the other
--               settings and `conf_read`; Conf/Bits is about the masks, Conf/Cidr about the
--               blocks, and Conf/Keeps and Conf/Rules about the rules that the whole file gives
--   Pool        src/pool.c, and what src/worker.c does with it: `worker_new`, `worker_pool_connect`;
--               Pool/Rotation is about `pool_get_context`, Pool/AuthLog has what is logged
--               of AUTH, Pool/Steps the events of the connections, and Pool/Counts and Pool/Slots
--               are about their number
--   Cmd         src/cmd.c; Cmd/Uri is `decode_uri`, Cmd/Extension `cmd_select_format`, Cmd/Transfer
--               `cmd_setup`, Cmd/Parse the loops of `cmd_run` over the URI, Cmd/Run `cmd_run` itself;
--               Cmd/Safety is about what is sent, Cmd/Bounds about the slots of the arguments,
--               Cmd/Request about the arguments; Cmd/Layout and Cmd/Suffix are the parts of a
--               URI, and Cmd/Filled, Cmd/Ready, Cmd/Judged, Cmd/Calls and Cmd/Kept follow a
--               request from there to what is sent; Cmd/Heap and Cmd/Allocation are about the
--               heap of commands, and Cmd/Verdict has the tests that decide over a request
--   Reply       `redisReply`
--   Http        src/http.c: Http is the responses and their bytes, Http/Delivery the writes,
--               Http/Send the responses without a command; Http/Reader is a client of RFC 7230,
--               and Http/Fields, Http/Status, Http/Length, Http/Written and Http/Chunk are about
--               what it reads, Http/Order about the bytes that the writes send
--   Formats     src/formats: Formats/Common `integer_length`, Formats/Send the rest of
--               src/formats/common.c, Formats/Promise and Formats/Answer what its responses say,
--               Formats/Raw and
--               Formats/RawSize src/formats/raw.c, Formats/Custom src/formats/custom-type.c,
--               Formats/Json, Formats/JsonStreams and Formats/JsonReply src/formats/json.c, with
--               Formats/JsonLaws the laws of jansson's and Formats/JsonHash on HGETALL,
--               Formats/Msgpack src/formats/msgpack.c, Formats/MsgpackValue and
--               Formats/MsgpackReply the values of MessagePack, Formats/Replies the callbacks,
--               Formats/Extract the commands of WebSocket messages, of src/formats/json.c and
--               src/formats/raw.c
--   Worker      src/worker.c: Worker is `worker_process_client`, Worker/Reading
--               `worker_can_read`; Worker/Answers is about the answers, Worker/Upkeep about what
--               a read leaves, Worker/Early about the callbacks in front of the end of a message, and
--               Worker/Delivered and Worker/Requests about a whole request
--   Server      `server_can_accept` of src/server.c, and the pipes of src/worker.c by which the
--               workers get their clients, with the events of the threads as steps in any order;
--               Server/Ring is about the ring of workers, Server/Handover about the pipes
--   Slog        src/slog.c: the lines of the log, with Slog/Line about them; Slog/Setup has its
--               file and its timer
--   Websocket   src/websocket.c: the frames; Websocket/Execute is `ws_execute` and
--               `ws_process_read_data`, Websocket/Events the callbacks of libevent,
--               Websocket/Handshake the way in, with Websocket/Welcome on what it
--               leaves; Websocket/Lifecycle has the events as steps,
--               with Websocket/Live on what each leaves scheduled; Websocket/Keeps,
--               Websocket/Handled and Websocket/Loop are about the loop over the messages;
--               Websocket/Rfc is section 5.2 of RFC 6455, which the frames are measured against
--   Client      src/client.c: the callbacks of the HTTP parser, the query string, the buffer
--   Tests       concrete configurations, requests, pools, frames and replies
-- The functions keep the names that they have in the source. A large function is cut into the
-- loops and stretches that it consists of, each named for what it does and commented with the
-- place that it has.
--
-- State: a client, a pool and a WebSocket client are records, and an operation takes the old one
-- and returns the new one. The commands of `cmd_run` live in a heap of handles (`World.cmds`), so
-- that the pointers between a client and its command are those of the source, and `cmd_free` takes
-- the handle out of the heap. The calls of `redisAsyncCommandArgv` are recorded in `sent`, the
-- commands queued on a new connection in `queued`, the connections given up in `disconnected`.
-- A read of a client (Worker/Reading) gives the bytes and responses that go out, and says whether
-- the client is monitored again, freed, or handed over to its WebSocket client.
-- The pipe of a worker is a queue of clients, to which an address is written whole (Server).
-- A response is a value until it is written: the functions that send give a list of responses on
-- their way (`Sending`), and the callbacks a list of effects, responses and frames.
--
-- What is not under src/ of the repository or is a copy of another project is a parameter: what
-- hiredis answers to a request for a connection (`Connecting`), what its reader makes of a text
-- (`ReaderAnswer`), what jansson makes of one (`JsonText`), the JSON text of an error, SHA-1,
-- base64, MD5, getenv, atoi, inet_addr, jansson's access to a value, the bytes of the MessagePack
-- library, which callbacks http-parser makes for a buffer (`Reading`), the accounts of the system,
-- and the bytes that the event loop reads and writes. Of write(2) it is assumed, where it
-- is said, that it takes no more bytes than it is given, or at least one of them; of the rest no law
-- is assumed, but that jansson's objects and arrays hold what is put into them (Formats/JsonLaws).
--
-- Bounds: numbers are natural numbers; `int` wraps at 2 ^ 32 where the source's arithmetic can
-- leave it (`db_from`, `to_int`, and `sent` of a response, Http/Delivery), and the lengths of frames are cut to 16 and 64 bits as `htons`
-- and `webdis_htonll` do. Fuel: the loop that counts parameters gets the length of the URI, and
-- each round moves on by a byte at least; the loop over the arguments gets the length of the URI
-- too; `pool_get_context` gets the number of slots, the loop over WebSocket messages the length of
-- the buffer, and both say it if they run out (`none`, `ran_out`); the loop over the query string
-- gets its length; `integer_length` gets the ten digits of an `int`.
--
-- The loops over a text in Formats/Msgpack get its length; the digits of a number get 21 places in
-- decimal and 9 in hexadecimal; `deliver` gets a number of writes.
--
-- Not modelled: failed allocations; which messages the functions log, but for those of AUTH;
-- sockets, signals, the event loops and timers; the warnings on the configuration file; the start of
-- the server (src/server.c, src/webdis.c); who owns a JSON value, and its text; a reply of Redis that
-- comes when its WebSocket client is freed; the exit on credentials that cannot be encoded
-- (`conf_parse_acl`).
pub mod Prelude
pub mod State
pub mod Acl
pub mod Conf
pub mod Pool
pub mod Cmd
pub mod Client
pub mod Http
pub mod Reply
pub mod Formats
pub mod Worker
pub mod Server
pub mod Slog
pub mod Websocket
pub mod Tests
