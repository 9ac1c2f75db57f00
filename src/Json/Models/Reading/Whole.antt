-- ===== src/Json/Models/Reading/Whole.antt =====
-- Values of which nothing is lost when they are written, and their documents.
use hzrobot.Prelude.{ℤ, IsInt, Option, some, none, List, [], ◌∷◌, Bytes, All, ◌≡◌, refl, subst}
use hzrobot.Json.{node, e_object, Members, no_items, find_kv_child, same_kind, lookup}
use hzrobot.Json.Encode.{encode_string}
use hzrobot.Json.Documents.{Doc, Fields, no_fields, field, IsPrinted, IsDoc, AreDocs, AreFields}
use hzrobot.Json.Models.{
  FieldType, string_field, int_field, vector_field, map_field, model_field, Columns, no_columns,
  column, Value, Row,
}
use hzrobot.Json.Models.Docs.{gather, gather_fields, text_doc, model_doc, to_doc}
use hzrobot.Json.Models.Joining.{encode_string-filled}
use hzrobot.Json.Models.Reading.Entries.{AreAscending}
use hzrobot.Json.Models.Reading.Fields.{AreDistinct}

module _ (decimal : ℤ → Bytes) where
  -- No element of a vector or entry of a map stands for nothing, the keys of a map are in order, the
  -- names of a model's fields differ, and 32 bits hold the numbers.
  unfoldable mutual
    unfolding Value

    pub IsWhole : (t : FieldType) → Value t → Type 0
    IsWhole string_field v = Unit
    IsWhole int_field v = IsInt v
    IsWhole (vector_field t) v =
        All (λ (x : Value t). ((d : Doc) × (to_doc decimal t x ≡ some d)) × IsWhole t x) v
    IsWhole (map_field t) v =
        All (λ (e : Bytes × Value t). ((d : Doc) × (to_doc decimal t e.1 ≡ some d)) × IsWhole t e.1)
          v
        × AreAscending v
    IsWhole (model_field columns) row = AreDistinct columns × AreWhole columns row

    pub AreWhole : (columns : Columns) → Row columns → Type 0
    AreWhole no_columns row = Unit
    AreWhole (column name t columns) (v, row) = IsWhole t v × AreWhole columns row

-- What stands for nothing.
text_doc-nil : (bytes : Bytes) → text_doc bytes ≡ none → bytes ≡ []
unfolding text_doc
text_doc-nil [] h = refl
text_doc-nil (c ∷ cs) h = cc

pub encode_string-nil : (v : Bytes) → text_doc (encode_string v) ≡ none → v ≡ []
encode_string-nil [] h = refl
encode_string-nil (c ∷ cs) h =
    absurd (encode_string-filled (c ∷ cs) (λ e. cc) (text_doc-nil (encode_string (c ∷ cs)) h))

pub model_doc-nil : (fields : Fields) → model_doc fields ≡ none → fields ≡ no_fields
unfolding model_doc
model_doc-nil no_fields h = refl
model_doc-nil (field k d others) h = cc

pub gather_fields-nil :
    (k : Bytes) (o : Option Doc) (fields : List (Bytes × Option Doc))
    → gather_fields ((k, o) ∷ fields) ≡ no_fields
    → (o ≡ none) × (gather_fields fields ≡ no_fields)
unfolding gather_fields
gather_fields-nil k none fields h = (refl, h)
gather_fields-nil k (some d) fields h = cc

-- The documents of the fields that are there.
abbrev pub IsDocThere : Option Doc → Type 0
IsDocThere none = Unit
IsDocThere (some d) = IsDoc d

pub AreFields-split :
    (k : Bytes) (o : Option Doc) (fields : List (Bytes × Option Doc))
    → AreFields (gather_fields ((k, o) ∷ fields))
    → IsDocThere o × AreFields (gather_fields fields)
unfolding gather_fields IsDoc
AreFields-split k none fields h = (tt, h)
AreFields-split k (some d) fields (_, _, is, rest) = (is, rest)

pub AreFields-key :
    (k : Bytes) (d : Doc) (o : Option Doc) (fields : List (Bytes × Option Doc))
    → o ≡ some d
    → AreFields (gather_fields ((k, o) ∷ fields))
    → All IsPrinted k × IsDoc d × AreFields (gather_fields fields)
unfolding gather_fields IsDoc
AreFields-key k d none fields e h = cc
AreFields-key k d (some d') fields e (_, printed, is, rest) =
    let same : d' ≡ d = cc in (printed, subst IsDoc same is, rest)

pub AreDocs-split :
    (d : Doc) (o : Option Doc) (docs : List (Option Doc))
    → o ≡ some d
    → AreDocs (gather (o ∷ docs))
    → IsDoc d × AreDocs (gather docs)
unfolding gather IsDoc
AreDocs-split d none docs e h = cc
AreDocs-split d (some d') docs e (is, _, rest) =
    let same : d' ≡ d = cc in (subst IsDoc same is, rest)

pub find-lookup :
    (name k : Bytes) (kv : Members)
    → find_kv_child name (node e_object k [] kv no_items) ≡ lookup name kv
unfolding find_kv_child same_kind
find-lookup name k kv = refl
