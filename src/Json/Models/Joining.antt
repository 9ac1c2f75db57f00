-- ===== src/Json/Models/Joining.antt =====
-- The joining of the fields' texts gives the texts of the documents.
use hzrobot.Prelude.{
  ℕ, true, false, Option, some, none, List, [], ◌∷◌, ◌++◌, Bytes, codes, append_assoc, ◌≡◌, ◌≢◌,
  refl, ◌∙◌, ap, arith,
}
use hzrobot.Json.Encode.{encode_string, encode_char}
use hzrobot.Json.Documents.{
  Doc, Fields, no_fields, field, print, print_fields, print_more, print_docs, print_rest,
}
use hzrobot.Json.Models.{join, enclose, named, encode_vector, encode_map}
use hzrobot.Json.Models.Docs.{gather, gather_fields, text_doc, vector_doc, map_doc, model_doc}

abbrev pub print_there : Option Doc → Bytes
print_there none = []
print_there (some d) = print d

abbrev pub IsText : Option Doc → Type 0
IsText none = Unit
IsText (some d) = print d ≢ []

-- A text is that of a document, and is empty only where there is none.
abbrev pub Says : Bytes → Option Doc → Type 0
Says bytes d = (bytes ≡ print_there d) × IsText d

-- Texts are those of the documents one by one.
pub data Agree : List Bytes → List (Option Doc) → Type 0 where
  agree_nil : Agree [] []
  agree_cons :
      {bytes : Bytes} {d : Option Doc} {texts : List Bytes} {docs : List (Option Doc)}
      → Says bytes d
      → Agree texts docs
      → Agree (bytes ∷ texts) (d ∷ docs)

pub data AgreeFields : List Bytes → List (Bytes × Option Doc) → Type 0 where
  agree_no_fields : AgreeFields [] []
  agree_field :
      {key bytes : Bytes} {d : Option Doc} {texts : List Bytes} {fields : List (Bytes × Option Doc)}
      → Says bytes d
      → AgreeFields texts fields
      → AgreeFields (named (b'"' ∷ key ++ codes "\"") bytes ∷ texts) ((key, d) ∷ fields)

join-true :
    (bytes : Bytes) (texts : List Bytes)
    → bytes ≢ []
    → join true (bytes ∷ texts) ≡ bytes ++ join false texts
unfolding join
join-true [] texts h = absurd (h refl)
join-true (c ∷ cs) texts h = refl

join-false :
    (bytes : Bytes) (texts : List Bytes)
    → bytes ≢ []
    → join false (bytes ∷ texts) ≡ b',' ∷ bytes ++ join false texts
unfolding join
join-false [] texts h = absurd (h refl)
join-false (c ∷ cs) texts h = refl

join-docs :
    (texts : List Bytes) (docs : List (Option Doc))
    → Agree texts docs
    → (join true texts ≡ print_docs (gather docs)) × (join false texts ≡ print_rest (gather docs))
unfolding join gather print_docs
join-docs _ _ agree_nil = (refl, refl)
join-docs _ _ (agree_cons {d = none} {texts = texts} {docs = docs} (e, _) agree) =
    rw e (join-docs texts docs agree)
join-docs _ _ (agree_cons {d = some d} {texts = texts} {docs = docs} (e, filled) agree) =
    let (_, later) = join-docs texts docs agree in
    rw e (
      join-true (print d) texts filled ∙ ap (λ (r : Bytes). print d ++ r) later,
      join-false (print d) texts filled ∙ ap (λ (r : Bytes). b',' ∷ print d ++ r) later,
    )

quoted-colon :
    (key bytes rest : Bytes)
    → ((key ++ codes "\"") ++ b':' ∷ bytes) ++ rest ≡ key ++ (codes "\":" ++ (bytes ++ rest))
quoted-colon key bytes rest =
    append_assoc (key ++ codes "\"") (b':' ∷ bytes) rest
    ∙ append_assoc key (codes "\"") (b':' ∷ bytes ++ rest)

named-filled : (key bytes : Bytes) → bytes ≢ [] → named key bytes ≡ key ++ b':' ∷ bytes
unfolding named
named-filled key [] h = absurd (h refl)
named-filled key (c ∷ cs) h = refl

join-named :
    (key bytes rest : Bytes) (texts : List Bytes)
    → bytes ≢ []
    → join false texts ≡ rest
    → (join true (named (b'"' ∷ key ++ codes "\"") bytes ∷ texts)
        ≡ b'"' ∷ key ++ (codes "\":" ++ (bytes ++ rest)))
      × (join false (named (b'"' ∷ key ++ codes "\"") bytes ∷ texts)
          ≡ b',' ∷ b'"' ∷ key ++ (codes "\":" ++ (bytes ++ rest)))
unfolding join
join-named key bytes rest texts filled later =
    let tail_ : ((key ++ codes "\"") ++ b':' ∷ bytes) ++ join false texts
        ≡ key ++ (codes "\":" ++ (bytes ++ rest)) =
      quoted-colon key bytes (join false texts)
      ∙ ap (λ (r : Bytes). key ++ (codes "\":" ++ (bytes ++ r))) later in
    rw (named-filled (b'"' ∷ key ++ codes "\"") bytes filled)
      (ap (λ (r : Bytes). b'"' ∷ r) tail_, ap (λ (r : Bytes). b',' ∷ b'"' ∷ r) tail_)

pub join-fields :
    (texts : List Bytes) (fields : List (Bytes × Option Doc))
    → AgreeFields texts fields
    → (join true texts ≡ print_fields (gather_fields fields))
      × (join false texts ≡ print_more (gather_fields fields))
unfolding join gather_fields print_fields named
join-fields _ _ agree_no_fields = (refl, refl)
join-fields _ _
      (agree_field {key = key} {d = none} {texts = texts} {fields = fields} (e, _) agree) =
    rw e (join-fields texts fields agree)
join-fields _ _
      (agree_field {key = key} {d = some d} {texts = texts} {fields = fields} (e, filled) agree) =
    let (_, later) = join-fields texts fields agree in
    rw e (join-named key (print d) (print_more (gather_fields fields)) texts filled later)

-- The delimiters around the text of a model.
pub enclose-model :
    (bytes : Bytes) (fields : Fields)
    → bytes ≡ print_fields fields
    → Says (enclose b'{' b'}' bytes) (model_doc fields)
unfolding enclose model_doc print
enclose-model bytes no_fields e = rw e (refl, tt)
enclose-model bytes (field key d others) e = rw e (refl, (λ h. cc))

pub encode_vector-Says :
    (texts : List Bytes) (docs : List (Option Doc))
    → Agree texts docs
    → Says (encode_vector texts) (vector_doc docs)
unfolding encode_vector vector_doc print
encode_vector-Says _ _ agree_nil = (refl, tt)
encode_vector-Says _ _ (agree_cons says agree) =
    (ap (λ (r : Bytes). b'[' ∷ r ++ codes "]") (join-docs _ _ (agree_cons says agree)).0, (λ h. cc))

pub encode_map-Says :
    (texts : List Bytes) (fields : List (Bytes × Option Doc))
    → AgreeFields texts fields
    → Says (encode_map texts) (map_doc fields)
unfolding encode_map map_doc print
encode_map-Says _ _ agree_no_fields = (refl, tt)
encode_map-Says _ _ (agree_field says agree) = (
  ap (λ (r : Bytes). b'{' ∷ r ++ codes "}") (join-fields _ _ (agree_field says agree)).0,
  (λ h. cc),
)

pub encode_text-Says : (bytes : Bytes) → Says (enclose b'"' b'"' bytes) (text_doc bytes)
unfolding enclose text_doc print
encode_text-Says [] = (refl, tt)
encode_text-Says (c ∷ cs) = (refl, (λ h. cc))

pub enclose-filled :
    (first last : ℕ) (bytes : Bytes)
    → bytes ≢ []
    → enclose first last bytes ≡ first ∷ bytes ++ last ∷ []
unfolding enclose
enclose-filled first last [] h = absurd (h refl)
enclose-filled first last (c ∷ cs) h = refl

encode_char-filled : (c : ℕ) (rest : Bytes) → encode_char c ++ rest ≢ []
unfolding encode_char
encode_char-filled c rest h = ground arith

pub encode_string-filled : (key : Bytes) → key ≢ [] → encode_string key ≢ []
unfolding encode_string
encode_string-filled [] given = absurd (given refl)
encode_string-filled (c ∷ cs) given = encode_char-filled c (encode_string cs)
