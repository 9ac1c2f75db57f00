-- ===== src/Json/Models/Reading/Holds.antt =====
-- What the decoder of Include/util/json.hpp finds in the nodes of documents.
use hzrobot.Prelude.{
  Option, some, List, [], ◌∷◌, ◌++◌, map, Bytes, All, ◌≡◌, ◌∙◌, refl, sym, ap, subst, append_assoc,
  append-nil,
}
use hzrobot.Json.{
  Node, no_members, Items, no_items, item, push_back, get_value, kv_childs, array_childs,
}
use hzrobot.Json.Documents.{
  Doc, text, numeral, object, array, Fields, no_fields, field, IsPrinted, IsDoc, AreDocs, AreFields,
  to_node, add_fields, add_docs,
}
use hzrobot.Json.Models.Docs.{gather, gather_fields, text_doc, vector_doc, map_doc, model_doc}
use hzrobot.Json.Models.Reading.{item_values}

-- What the nodes of documents hold.
module _ (k : Bytes) where
  pub text-holds :
      (bytes : Bytes) (d : Doc)
      → text_doc bytes ≡ some d
      → IsDoc d
      → (get_value (to_node k d) ≡ bytes) × All IsPrinted bytes
  unfolding text_doc get_value to_node IsDoc
  text-holds [] d stands is = cc
  text-holds (c ∷ cs) d stands is =
      let same : text (c ∷ cs) ≡ d = cc in
      (ap (λ (e : Doc). get_value (to_node k e)) (sym same), subst IsDoc (sym same) is)

  pub number-holds :
      (bytes : Bytes) (d : Doc) → some (numeral bytes) ≡ some d → get_value (to_node k d) ≡ bytes
  unfolding get_value to_node
  number-holds bytes d stands =
      let same : numeral bytes ≡ d = cc in ap (λ (e : Doc). get_value (to_node k e)) (sym same)

  pub vector-holds :
      (docs : List (Option Doc)) (d : Doc)
      → vector_doc docs ≡ some d
      → IsDoc d
      → (array_childs (to_node k d) ≡ add_docs no_items (gather docs)) × AreDocs (gather docs)
  unfolding vector_doc array_childs to_node IsDoc
  vector-holds [] d stands is = cc
  vector-holds (o ∷ docs) d stands is =
      let same : array (gather (o ∷ docs)) ≡ d = cc in
      (ap (λ (e : Doc). array_childs (to_node k e)) (sym same), subst IsDoc (sym same) is)

  pub map-holds :
      (fields : List (Bytes × Option Doc)) (d : Doc)
      → map_doc fields ≡ some d
      → IsDoc d
      → (kv_childs (to_node k d) ≡ add_fields no_members (gather_fields fields))
        × AreFields (gather_fields fields)
  unfolding map_doc kv_childs to_node IsDoc
  map-holds [] d stands is = cc
  map-holds (f ∷ fields) d stands is =
      let same : object (gather_fields (f ∷ fields)) ≡ d = cc in
      (ap (λ (e : Doc). kv_childs (to_node k e)) (sym same), subst IsDoc (sym same) is)

  pub model-holds :
      (fields : Fields) (d : Doc)
      → model_doc fields ≡ some d
      → IsDoc d
      → (d ≡ object fields) × AreFields fields
  unfolding model_doc IsDoc
  model-holds no_fields d stands is = cc
  model-holds (field name e fields) d stands is =
      let same : object (field name e fields) ≡ d = cc in (sym same, subst IsDoc (sym same) is)

-- Elements that are read one by one are read together.
module _ {A : Type 0} (f : Node → A) (g : A → Option Doc) where
  abbrev pub IsReadItem : A → Type 0
  IsReadItem x = (d : Doc) × (g x ≡ some d) × (f (to_node [] d) ≡ x)

  item_values-push_back :
      (n : Node) (arr : Items) → item_values f (push_back n arr) ≡ item_values f arr ++ f n ∷ []
  unfolding item_values push_back
  item_values-push_back n no_items = refl
  item_values-push_back n (item m others) = ap (◌∷◌ (f m)) (item_values-push_back n others)

  pub item_values-items :
      (xs : List A) (arr : Items)
      → All IsReadItem xs
      → item_values f (add_docs arr (gather (map g xs))) ≡ item_values f arr ++ xs
  unfolding add_docs gather
  item_values-items [] arr read = sym (append-nil (item_values f arr))
  item_values-items (x ∷ xs) arr ((d, stands, reads), read) =
      let pushed : item_values f (push_back (to_node [] d) arr) ++ xs
          ≡ item_values f arr ++ x ∷ xs =
        ap (λ (r : List A). r ++ xs)
          (item_values-push_back (to_node [] d) arr
            ∙ ap (λ (y : A). item_values f arr ++ y ∷ []) reads)
        ∙ append_assoc (item_values f arr) (x ∷ []) xs in
      rw stands (item_values-items xs (push_back (to_node [] d) arr) read ∙ pushed)
