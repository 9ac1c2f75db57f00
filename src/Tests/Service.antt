-- ===== src/Tests/Service.antt =====
-- A reply of the photo service to a task.
use hzrobot.Prelude.{
  ◌==◌, if◌then◌else◌, true, false, some, [], codes, equal, length, ◌≡◌, refl, arith,
}
use hzrobot.Json.Documents.{numeral, object, Fields, field, no_fields, IsDoc, print}
use hzrobot.Http.Message.{HttpResponse}
use hzrobot.Http.Client.{succeeds}
use hzrobot.Task.{photo_attempt, photo_success, num_unsuccess}
use hzrobot.Task.Service.{attempt_of}
use hzrobot.Task.Service.Replies.{field_of, value_text, photo_attempt-print}

abbrev tables : Fields
tables = field (codes "tablenum") (numeral (codes "6")) no_fields

abbrev reply : Fields
reply =
    field (codes "request") (object tables)
      (field (codes "successnum") (numeral (codes "6")) no_fields)

reply-IsDoc : IsDoc (object reply)
unfolding IsDoc
reply-IsDoc = ground arith

abbrev response : HttpResponse
response = record {
  version = codes "HTTP/1.1";
  entrys = [];
  content_length = 0;
  body = print (object reply);
  status_code = 200;
  status_desc = codes "OK";
  is_chunk = false;
}

request-field : field_of (codes "request") reply ≡ some (object tables)
unfolding equal
request-field = refl

success-field : field_of (codes "successnum") reply ≡ some (numeral (codes "6"))
unfolding equal
success-field = refl

tables-field : field_of (codes "tablenum") tables ≡ some (numeral (codes "6"))
unfolding equal
tables-field = refl

photo_attempt-print_example :
    photo_attempt [] false (attempt_of length (some (succeeds response)))
    ≡ some (
        if length (value_text (numeral (codes "6"))) == length (value_text (numeral (codes "6")))
        then (true, (photo_success, response.body))
        else (false, (num_unsuccess, response.body)))
photo_attempt-print_example =
    photo_attempt-print length [] false reply tables (numeral (codes "6")) (numeral (codes "6"))
      response reply-IsDoc request-field tables-field success-field refl
