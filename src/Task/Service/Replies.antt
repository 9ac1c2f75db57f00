-- ===== src/Task/Service/Replies.antt =====
-- A reply of the photo service that is a JSON document, and what the task makes of it.
use hzrobot.Prelude.{
  ℕ, Bool, true, ◌==◌, if◌then◌else◌, Option, some, none, [], Bytes, codes, equal, equal→eq, ◌≡◌,
  refl, sym, ◌∙◌, ap, ap₂, subst, inl, inr, Bool-cases, append-nil,
}
use mathlib.Core.Option
use hzrobot.Json.{Node, Members, no_members, lookup, emplace, get_value, find_kv_child, same_kind}
use hzrobot.Json.Childs.{
  IsOrdered, emplace-IsOrdered, or_new, lookup-emplace_same, lookup-emplace_other,
}
use hzrobot.Json.Decode.{parsed, decode_root}
use hzrobot.Json.Documents.{
  Doc, text, numeral, object, array, Fields, no_fields, field, IsDoc, print, to_node, add_fields,
}
use hzrobot.Json.Documents.Decoding.{decode_root-print}
use hzrobot.Http.Message.{HttpResponse}
use hzrobot.Http.Client.{succeeds}
use hzrobot.Task.{Reply, replied, photo_attempt, photo_success, num_unsuccess}
use hzrobot.Task.Service.{child_of, number_of, reply_of, attempt_in, attempt_of}

-- The first field with a key.
abbrev pub field_of : Bytes → Fields → Option Doc
field_of key no_fields = none
field_of key (field k d fs) = if equal key k then some d else field_of key fs

abbrev pub first_of {ℓ} : {A : Type ℓ} → Option A → Option A → Option A
first_of none b = b
first_of (some a) b = some a

first_of-none {ℓ} : {A : Type ℓ} (a : Option A) → first_of a none ≡ a
first_of-none none = refl
first_of-none (some a) = refl

first_of-or_new :
    (a : Option Node) (n : Node) (b : Option Node) → first_of (or_new a n) b ≡ first_of a (some n)
first_of-or_new none n b = refl
first_of-or_new (some a) n b = refl

lookup-add_fields :
    (key : Bytes) (kv : Members) (fs : Fields)
    → IsOrdered kv
    → lookup key (add_fields kv fs)
      ≡ first_of (lookup key kv) (Option.map (to_node key) (field_of key fs))
unfolding add_fields
lookup-add_fields key kv no_fields o = sym (first_of-none (lookup key kv))
lookup-add_fields key kv (field k d fs) o =
    let n = to_node k d in
    let later = Option.map (to_node key) (field_of key fs) in
    let ih = lookup-add_fields key (emplace k n kv) fs (emplace-IsOrdered k n kv o) in
    elim (Bool-cases (equal key k)) [
      | inr e ↦ rw e (ih ∙ ap (λ x. first_of x later) (lookup-emplace_other key k n kv e))
      | inl e ↦
          let same = equal→eq key k e in
          let here : lookup key (emplace k n kv) ≡ or_new (lookup key kv) (to_node key d) =
            subst (λ j. lookup j (emplace k n kv) ≡ or_new (lookup j kv) (to_node j d)) (sym same)
              (lookup-emplace_same k n kv o) in
          rw e (
            ih
            ∙ ap (λ x. first_of x later) here
            ∙ first_of-or_new (lookup key kv) (to_node key d) later)
    ]

-- The fields of a document that the decoder has read are found under their keys, the first of a
-- key.
pub find_kv_child-to_node :
    (k key : Bytes) (fs : Fields)
    → find_kv_child key (to_node k (object fs)) ≡ Option.map (to_node key) (field_of key fs)
unfolding find_kv_child to_node lookup same_kind
find_kv_child-to_node k key fs = lookup-add_fields key no_members fs tt

abbrev pub value_text : Doc → Bytes
value_text (text v) = v
value_text (numeral v) = v
value_text (object fs) = []
value_text (array ds) = []

get_value-to_node : (k : Bytes) (d : Doc) → get_value (to_node k d) ≡ value_text d
unfolding get_value to_node
get_value-to_node k (text v) = refl
get_value-to_node k (numeral v) = refl
get_value-to_node k (object fs) = refl
get_value-to_node k (array ds) = refl

-- The numbers that a document gives, read off its fields.
abbrev pub reply_in : (Bytes → ℕ) → Bytes → Fields → Fields → Reply
reply_in atoi body fs request = record {
  body = body;
  tablenum = Option.map (λ d. atoi (value_text d)) (field_of (codes "tablenum") request);
  successnum = Option.map (λ d. atoi (value_text d)) (field_of (codes "successnum") fs);
}

number_of-to_node :
    (atoi : Bytes → ℕ) (key : Bytes) (o : Option Doc)
    → number_of atoi (Option.map (to_node key) o) ≡ Option.map (λ d. atoi (value_text d)) o
unfolding number_of
number_of-to_node atoi key none = refl
number_of-to_node atoi key (some d) = ap (λ v. some (atoi v)) (get_value-to_node key d)

-- A reply that is a JSON object with an object under "request" gives the two numbers: those that
-- `atoi` makes of the first "tablenum" in that object and of the first "successnum".
pub attempt_of-print :
    (atoi : Bytes → ℕ) (fs request : Fields) (res : HttpResponse)
    → IsDoc (object fs)
    → field_of (codes "request") fs ≡ some (object request)
    → res.body ≡ print (object fs)
    → attempt_of atoi (some (succeeds res)) ≡ replied (reply_in atoi res.body fs request)
unfolding attempt_of attempt_in reply_of child_of
attempt_of-print atoi fs request res is here body =
    let root = to_node [] (object fs) in
    let read : decode_root res.body ≡ parsed root [] =
      ap decode_root (body ∙ sym (append-nil (print (object fs))))
      ∙ decode_root-print (object fs) [] is tt in
    let inner : find_kv_child (codes "request") root
        ≡ some (to_node (codes "request") (object request)) =
      find_kv_child-to_node [] (codes "request") fs
      ∙ ap (Option.map (to_node (codes "request"))) here in
    ap (attempt_in atoi res.body) read
    ∙ ap₂ (λ a b. replied (record { body = res.body; tablenum = a; successnum = b }))
        (ap (λ n. number_of atoi (child_of (codes "tablenum") n)) inner
          ∙ ap (number_of atoi) (find_kv_child-to_node (codes "request") (codes "tablenum") request)
          ∙ number_of-to_node atoi (codes "tablenum") (field_of (codes "tablenum") request))
        (ap (number_of atoi) (find_kv_child-to_node [] (codes "successnum") fs)
          ∙ number_of-to_node atoi (codes "successnum") (field_of (codes "successnum") fs))

-- A reply whose body is the text of a document, an object with an object under "request" that has
-- "tablenum", and with "successnum", is a success exactly if `atoi` reads both as the same number;
-- either way the reply is logged, and a reply that is no success leaves the flag alone. The document
-- is made of strings, numerals of digits, objects and lists, without `true`, `false` and `null`; its
-- strings and keys hold no quote and no backslash, no key is empty, and no list holds an empty
-- string, object or list.
pub photo_attempt-print :
    (atoi : Bytes → ℕ) (config_body : Bytes) (finish : Bool) (fs request : Fields) (a b : Doc)
    (res : HttpResponse)
    → IsDoc (object fs)
    → field_of (codes "request") fs ≡ some (object request)
    → field_of (codes "tablenum") request ≡ some a
    → field_of (codes "successnum") fs ≡ some b
    → res.body ≡ print (object fs)
    → photo_attempt config_body finish (attempt_of atoi (some (succeeds res)))
      ≡ some (
          if atoi (value_text b) == atoi (value_text a)
          then (true, (photo_success, res.body))
          else (finish, (num_unsuccess, res.body)))
unfolding photo_attempt
photo_attempt-print atoi config_body finish fs request a b res is here total success body =
    let number : Doc → ℕ = λ d. atoi (value_text d) in
    ap (photo_attempt config_body finish) (attempt_of-print atoi fs request res is here body)
    ∙ ap₂
        (λ x y.
          photo_attempt config_body finish
            (replied (record { body = res.body; tablenum = x; successnum = y })))
        (ap (Option.map number) total) (ap (Option.map number) success)
