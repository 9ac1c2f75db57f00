-- ===== src/Tests/Server.antt =====
-- Include/http/Source/HttpServer.cpp with a robot that answers and a task that is asked for.
use hzrobot.Prelude.{◌∷◌, Bytes, [], c_str, codes, equal, refl, some, true, ◌≡◌, ◌⊎◌}
use hzrobot.Text.Search.{contains, find_first, find_last, starts_with}
use hzrobot.Server.Reply.{bad_request, path_cat, mime_type, first_word}
use hzrobot.Server.Upload.{
  config_name, config_upload, content_part, copy, copy_limit, disposition, finished, lines_from,
  open_stream, postfix, upload_loop, write_stream,
}
use hzrobot.Server.{
  Env, Request, delete_, handle_request, is_known, no_such_file, post, responds, route,
}
use hzrobot.Server.Sending.{SendsAtMost}
use hzrobot.Server.Forwarding.{handle_request-SendsAtMost}
use hzrobot.Server.Guard.{IsKnown, IsLegal, handle_request_guard}
use hzrobot.Server.Routes.{started, AsksTask, handle_request-started}

abbrev pub env : Env
env = record {
  doc_root = codes ".";
  robot_ip = codes "10.0.0.2";
  robot_port = codes "8080";
  numbers = record { to_uint64 = λ t. 2; to_status = λ t. 200; print = λ n. codes "2" };
  network = record {
    connects = λ addr. true;
    sends = 200 ∷ [];
    delivers = codes "HTTP/1.1 200 OK\r\nContent-Length: 2\r\n\r\n{}" ∷ [];
  };
  atoi = λ text. 1;
  open_file = λ path. no_such_file;
}

abbrev pub tip : Request
tip = record {
  verb = post;
  target = codes "/robot/tips";
  content_type = codes "application/json";
  body = codes "{\"ACTION\":1}";
}

handle_request_guard_example :
    (IsKnown tip.verb
      × IsLegal tip.target
      × (handle_request env tip ≡ route env tip (path_cat env.doc_root tip.target)))
    ⊎ ((¬ (IsKnown tip.verb × IsLegal tip.target))
        × ((why : Bytes) × (handle_request env tip ≡ responds [] (bad_request why))))
handle_request_guard_example = handle_request_guard env tip

handle_request-started_example :
    (started (handle_request env tip) ≡ 0)
    ⊎ ((started (handle_request env tip) ≡ 1)
        × AsksTask env tip
        × (contains (codes "./robot/tips") (path_cat env.doc_root tip.target) ≡ true))
handle_request-started_example = handle_request-started env tip

unknown_method :
    handle_request env (record tip { verb = delete_ })
    ≡ responds [] (bad_request (codes "Unknown HTTP-method"))
unfolding handle_request is_known
unknown_method = refl

mime_type-css : mime_type (codes "/a.b/style.CSS") ≡ codes "text/css"
unfolding mime_type equal find_last starts_with
mime_type-css = refl

upload :
    config_upload (codes "multipart/form-data; boundary=XY") (
      codes
        "--XY\r\nContent-Disposition: form-data; filename=\"mysql_config.xml\"\r\nContent-Type: text/xml\r\n\r\n<a>\r\n</a>\r\n--XY--\r\n")
    ≡ record { ending = finished; wrote = some (codes "mysql_config.xml", codes "<a>\r\n</a>") }
unfolding config_upload find_first starts_with upload_loop lines_from contains c_str disposition
    postfix find_last equal config_name content_part write_stream open_stream copy copy_limit
    first_word
upload = refl

abbrev query : Request
query = record tip { target = codes "/robot/./api/v2/state" }

handle_request-SendsAtMost_example : SendsAtMost (handle_request env query) query env
handle_request-SendsAtMost_example = handle_request-SendsAtMost env query
