-- ===== src/Lib.antt =====
-- Piconaut, a web server library in C++ over libh2o, RapidJSON and libuv.
--
-- How the program works. A server (src/piconaut/http) hands each request that libh2o has parsed to
-- the global dispatcher (src/piconaut/handlers). The dispatcher asks the router
-- (src/piconaut/routers) for the route of the request's path, looks the route up in its table by
-- the hash of the path, and runs the user's handler with the parameters that the router has
-- captured. Handlers answer through Response, and may build their body with the JSON builder
-- (src/piconaut/formats/json). Middlewares (src/piconaut/middleware) form a chain around a request.
-- A handler of signals (src/piconaut/sys) lets the program stop.
--
-- What models what.
--   Utils.Strings: src/piconaut/utils/string_utils.h. SplitString is split_string, its overload
--     with a callback is split_each, RemoveSpaces and RemoveSpacesRef keep their names. A string is
--     the list of its bytes, with find and substr as the standard describes them.
--   Routers.Pattern: Router::IsValidRoute of src/piconaut/routers/router.cc.
--   Routers.Node, Routers.Router: src/piconaut/routers/router_node.h, router.h and router.cc.
--     AddRoute is add_route (its loop add_parts, its update of a parameter's node mark), MatchRoute
--     is match_route (its loop match_parts), PrintRouterTree is print_router_tree. A null
--     std::function is none; a node that std::make_unique has made is value-initialised, so that
--     its key is 0 until AddRoute writes one. Routers.Router.Walk reads the tree as a map,
--     Routers.Router.Table as the flat table of its routes, and Routers.Router.Table.Unordered as
--     the table of routes whose order is forgotten.
--   Handlers.Dispatcher: src/piconaut/handlers/global_dispatcher_handler.h and
--     src/piconaut/routers/route.cc. RegisterRouteHandler is register_route_handler, __HandleImpl
--     is handle_impl. Its outcome is an answer or an exception, its own or the user's; undefined
--     behaviour is an outcome too, for what the user's handler may do.
--     Handlers.Dispatcher.Interleaving takes a registration as two steps beside a request, whose
--     result points into the tree (Routers.Router.Pointers), Handlers.Dispatcher.Flat takes the
--     dispatcher as the list of its registrations.
--   Handlers.Callback: src/piconaut/handlers/handler_base.h and piconaut_handler_t.h, from the
--     callback of libh2o (HandlerCallback is handler_callback) to __HandleImpl
--     (virtual_handle_impl).
--   Middleware.Manager, Middleware.Csrf: the files of src/piconaut/middleware.
--   Http.Request, Http.Query, Http.Response, Http.Config: request.cc (GetQueryString in
--     Http.Query), response.cc and config.cc of src/piconaut/http.
--   Http.ServerImpl: Configure of src/piconaut/http/impl/h2o_impl.h; Http.ServerImpl.Workers:
--     AddRoute, Start, Stop, RunLoop, the destructor and the accept callbacks of that file. Event
--     loops are numbers, in the order of their creation.
--   Http.SingleServer, Http.MultiServer: http_single_server.cc and http_server.cc of
--     src/piconaut/http. Start is start_server and start_multi, with a step for each call that can
--     fail.
--   Formats.Json.ValueBuilder: src/piconaut/formats/json/value_builder.cc, over the interface
--     RapidJson. Formats.Json.JsonBuffer: the buffer of value_builder.h, with its ToString.
--   Formats.Json.Value: src/piconaut/formats/json/value.cc, over the interface RapidValues.
--     operator= is write_ with the name of the type, As<T> is as_ with that name (in
--     Formats.Json.Value.As), operator[] is subscript.
--   Sys.SignalHandler: src/piconaut/sys/signal_handler.h.
--   Main: main.cc, the program over the library. main is run_main, the end of the process is
--     exit_process, CaptureSignalDefault is capture_signal_default, and HandleRequest of
--     HelloWorldHandler is hello_request in Main.HelloWorld.
-- A module below one of these states what holds of it; Tests holds runs at fixed inputs.
--
-- State. A method takes the object's state as a record and returns the new one, together with the
-- exception or the result. What libh2o and libuv are asked to do is a list of calls in that state.
--
-- Parameters. std::hash, the user's HandleRequest, the number that a random generator draws,
-- libh2o's searches for a header and in a string, the failure of a send, the success of
-- uv_signal_init, of the creation of a thread and of the system's calls, and RapidJSON. Where a
-- statement assumes something of them, it says so: that RapidJSON keeps the laws of IsRapidJson,
-- IsRapidNested and IsRapidValues (Formats.Json.RapidJson.Cells is a concrete library that does),
-- that h2o_strstr finds the first place. What the code leaves to the library: h2o_create_handler
-- returns a handler (it ends the process where there is no memory, and MakePiconautHandler writes
-- through its result before any test), pthread_create succeeds, and front() of an empty string
-- reads its terminator, as operator[] does, since that of every first part of a path is asked for.
-- Memory is never exhausted.
--
-- Bounds and fuel. The loops of SplitString run on fuel, one more than the bytes of the string:
-- each round passes a delimiter. MiddlewareManager::Handle runs on one step more than there are
-- middlewares, since its index grows with each, and std::to_string on one more than the number that
-- it prints. npos is 2 ^ 64 - 1, and the theorems on paths assume strings no longer than that. All
-- other functions are structural.
--
-- Integers. num_threads of the multi-threaded server is an int that is converted to a size_t of 64
-- bits (as_size), and port an int of which htons takes 16 bits (as_port), both with their
-- wrap-around; the max_size of a vector of contexts is a parameter. Other integers are handed on
-- only.
--
-- Not modelled. What is printed, but for PrintRouterTree; the mutexes, since each call is taken as
-- one step, but for the lock of RegisterRouteHandler; what a loop of libh2o or libuv does in a
-- round; hosts, and the port of the other servers; the freeing of memory. The headers' declarations
-- and the macros of macro.h have no behaviour.
pub mod Prelude
pub mod Errors
pub mod Utils
pub mod Routers
pub mod Http
pub mod Formats
pub mod Handlers
pub mod Middleware
pub mod Sys
pub mod Main
pub mod Tests
