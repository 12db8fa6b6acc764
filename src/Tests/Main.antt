-- ===== src/Tests/Main.antt =====
-- main.cc at fixed inputs.
use piconaut.Prelude.{
  if◌then◌else◌, ◌∷◌, inl, ℕ, ◌≤◌, Str, bytes, true, length, none, [], map, Map, insert, ◌≡◌, ◌≢◌,
  refl, arith, list_eq, nat_eq, list_beq,
}
use piconaut.Utils.Strings.{npos}
use piconaut.Utils.Strings.Split.{split}
use piconaut.Utils.Strings.{split_string, split_each, remove_spaces_ref, substr, index_from}
use piconaut.Routers.Pattern.{is_valid_route, route_char}
use piconaut.Routers.Node.{find_child, put_child}
use piconaut.Routers.Router.{
  regex_match, is_empty, normalized_part, endpoint_parts, mark, add_parts, add_route, match_parts,
  match_route,
}
use piconaut.Http.Request.{FindHeader, H2oReq, get_path}
use piconaut.Http.Response.{Exchange, InlineFault}
use piconaut.Http.SingleServer.{
  new_h2o_server, start_server, register_handler, register_global_handler,
}
use piconaut.Errors.{out_of_range}
use piconaut.Handlers.Dispatcher.{Outcome, done, thrown, handle_impl, register_route_handler}
use piconaut.Main.{exited, route_table, register_each, run_main, exit_process, terminated}
use piconaut.Main.Dispatch.{AreDistinct, main_paths}
use piconaut.Main.Requests.{MainRequest, as_archive, main_requests}
use piconaut.Formats.Json.RapidJson.{c_str, object_type}
use piconaut.Formats.Json.RapidJson.Cells.{cells, cells-IsRapidJson, cells-IsRapidNested}
use piconaut.Formats.Json.ValueBuilder.{ValueBuilder, serialize_to_bytes}
use piconaut.Formats.Json.ValueBuilder.Objects.{Holds}
use piconaut.Http.Response.{send_json}
use piconaut.Main.HelloWorld.{◌>>=◌, bytes_or_raised, hello_body, hello_request}
use piconaut.Main.HelloWorld.Body.{hello_request-send_json}
use piconaut.Main.Ending.{exit_process-run_main}
use piconaut.Main.Answers.{as_outcome, run_hello, main_answers}

abbrev ask : H2oReq
ask = record {
  method = bytes "GET";
  path_normalized = bytes "/2024/07/post/9/hi";
  headers = [];
  entity = [];
}

abbrev blank : Exchange
blank = record { status = 0; reason = []; calls = [] }

-- A handler that answers with its own number as the status.
abbrev answer : ℕ → H2oReq → Map Str Str → Exchange → Outcome
answer h req params r = done (record r { status = h })

abbrev sound : InlineFault
sound body = none

-- The five paths have five lengths.
distinct : AreDistinct (map length main_paths)
distinct = omega arith

fits : length (get_path ask) ≤ npos
unfolding get_path
fits = omega arith

abbrev values : Map Str Str
values = insert (bytes "slug") (bytes "hi") (
    insert (bytes "id") (bytes "9")
      (insert (bytes "month") (bytes "07") (insert (bytes "year") (bytes "2024") [])))

not_post : bytes "post" ≢ bytes "2024"
not_post e = ground arith

asked : MainRequest {Hd = ℕ} 1 2 3 (split b'/' (get_path ask)) 3 values
unfolding split regex_match get_path list_beq
asked = as_archive (bytes "2024") (bytes "07") (bytes "9") (bytes "hi") not_post refl refl refl refl

main_requests_example :
    handle_impl answer sound
      (register_each {Hd = ℕ} length (route_table 1 2 3) (new_h2o_server true).0).0.routers
      ask
      blank
    ≡ answer 3 ask values blank
main_requests_example = main_requests length 1 2 3 distinct answer sound ask blank fits asked

abbrev no_headers : FindHeader
no_headers headers name = none

abbrev one : Map Str Str
one = (bytes "id", bytes "9") ∷ []

hello_request-send_json_example :
    (b : ValueBuilder cells) × (hello_body cells no_headers ask one ≡ inl b)
    × (cells.type_of b.document cells.root ≡ object_type)
    × (one ≢ []
        → Holds cells cells-IsRapidJson cells-IsRapidNested (c_str (bytes "params")) b.document)
    × (hello_request cells no_headers ask sound one blank ≡ (
        bytes_or_raised (serialize_to_bytes cells b) >>= λ sent.
        inl (send_json sound sent 200 blank)))
hello_request-send_json_example =
    hello_request-send_json cells cells-IsRapidJson cells-IsRapidNested no_headers ask sound one
      blank

main_answers_example :
    (b : ValueBuilder cells) × (hello_body cells no_headers ask values ≡ inl b)
    × (cells.type_of b.document cells.root ≡ object_type)
    × (values ≢ []
        → Holds cells cells-IsRapidJson cells-IsRapidNested (c_str (bytes "params")) b.document)
    × (handle_impl
          (run_hello cells cells-IsRapidJson cells-IsRapidNested no_headers sound)
          sound
          (register_each length (route_table 1 2 3) (new_h2o_server {Hd = ℕ} true).0).0.routers
          ask
          blank
        ≡ as_outcome (
            bytes_or_raised (serialize_to_bytes cells b) >>= λ sent.
            inl (send_json sound sent 200 blank)))
main_answers_example =
    main_answers cells cells-IsRapidJson cells-IsRapidNested no_headers sound length 1 2 3 ask blank
      distinct fits asked

-- Where the thread cannot be created, the process ends with 1, and else by std::terminate.
exit_process-run_main_example :
    exit_process (
      run_main {Hd = ℕ}
        (λ h. true)
        length
        0
        1
        2
        3
        true
        true
        (start_server true true true true true 0))
    ≡ (if true then terminated else exited 1)
exit_process-run_main_example =
    exit_process-run_main {Hd = ℕ} (λ h. true) length 0 1 2 3 true true
      (start_server true true true true true 0)

-- The year alone is a way to a route of main and no route: its key is 0, which no path has for a hash.
year_alone :
    handle_impl answer sound
      (register_each length (route_table 1 2 3) (new_h2o_server true).0).0.routers
      (record ask { path_normalized = bytes "/2024" })
      blank
    ≡ thrown out_of_range
unfolding handle_impl register_each register_handler register_route_handler new_h2o_server
    register_global_handler add_route is_valid_route route_char endpoint_parts split_each
    remove_spaces_ref add_parts normalized_part match_route match_parts split_string index_from
    regex_match list_beq is_empty get_path find_child put_child mark substr
year_alone = refl
