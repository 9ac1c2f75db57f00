-- ===== src/Json/Documents/Attach.antt =====
-- How the decoder of Include/util/json.hpp attaches the nodes of documents to their parents.
use hzrobot.Prelude.{◌<◌, [], ◌∷◌, Bytes, equal, ◌≡◌, ◌≢◌, inl, inr, refl, arith, Bool-cases}
use hzrobot.Json.{
  e_object, e_array, Node, node, Members, no_members, member, Items, no_items, item, kv_size,
  array_size, emplace, less, push_back,
}
use hzrobot.Json.Decode.{attach}
use hzrobot.Json.Documents.{
  Doc, text, numeral, object, array, Fields, no_fields, field, Docs, no_docs, doc, IsFilled, IsDoc,
  to_node, add_fields, add_docs,
}

pub attach-named :
    (k : Bytes) (d : Doc) (n k' v' : Bytes) (kv' : Members) (arr' : Items)
    → k ≢ []
    → attach (to_node k d) (node e_object k' v' kv' arr')
      ≡ node e_object k' v' (emplace k (to_node k d) kv') arr'
unfolding attach to_node
attach-named [] d n k' v' kv' arr' h = absurd (h refl)
attach-named (c ∷ cs) (text v) n k' v' kv' arr' h = refl
attach-named (c ∷ cs) (numeral v) n k' v' kv' arr' h = refl
attach-named (c ∷ cs) (object fs) n k' v' kv' arr' h = refl
attach-named (c ∷ cs) (array ds) n k' v' kv' arr' h = refl

pub kv_size-emplace : (k : Bytes) (n : Node) (kv : Members) → 0 < kv_size (emplace k n kv)
unfolding emplace kv_size
kv_size-emplace k n no_members = omega arith
kv_size-emplace k n (member j m others) = elim (Bool-cases (equal k j)) [
  | inl e ↦ rw e (omega arith)
  | inr e ↦ elim (Bool-cases (less k j)) [
    | inl l ↦ rw (e, l) (omega arith)
    | inr l ↦ rw (e, l) (omega arith)
  ]
]

pub kv_size-add_fields :
    (kv : Members) (fs : Fields) → 0 < kv_size kv → 0 < kv_size (add_fields kv fs)
unfolding add_fields
kv_size-add_fields kv no_fields h = h
kv_size-add_fields kv (field k d fs) h =
    kv_size-add_fields (emplace k (to_node k d) kv) fs (kv_size-emplace k (to_node k d) kv)

pub array_size-push_back : (n : Node) (arr : Items) → 0 < array_size (push_back n arr)
unfolding push_back array_size
array_size-push_back n no_items = omega arith
array_size-push_back n (item m others) = omega arith

pub array_size-add_docs :
    (arr : Items) (ds : Docs) → 0 < array_size arr → 0 < array_size (add_docs arr ds)
unfolding add_docs
array_size-add_docs arr no_docs h = h
array_size-add_docs arr (doc d ds) h =
    array_size-add_docs (push_back (to_node [] d) arr) ds (array_size-push_back (to_node [] d) arr)

pub attach-members :
    (v k' v' : Bytes) (kv kv' : Members) (arr arr' : Items)
    → 0 < kv_size kv
    → attach (node e_object [] v kv arr) (node e_array k' v' kv' arr')
      ≡ node e_array k' v' kv' (push_back (node e_object [] v kv arr) arr')
unfolding attach kv_size
attach-members v k' v' no_members kv' arr arr' h = absurd (omega arith)
attach-members [] k' v' (member k n kv) kv' arr arr' h = refl
attach-members (c ∷ cs) k' v' (member k n kv) kv' arr arr' h = refl

pub attach-items :
    (k' v' : Bytes) (kv' : Members) (arr arr' : Items)
    → 0 < array_size arr
    → attach (node e_array [] [] no_members arr) (node e_array k' v' kv' arr')
      ≡ node e_array k' v' kv' (push_back (node e_array [] [] no_members arr) arr')
unfolding attach array_size
attach-items k' v' kv' no_items arr' h = absurd (omega arith)
attach-items k' v' kv' (item n arr) arr' h = refl

pub attach-filled :
    (d : Doc) (k' v' : Bytes) (kv' : Members) (arr' : Items)
    → IsDoc d
    → IsFilled d
    → attach (to_node [] d) (node e_array k' v' kv' arr')
      ≡ node e_array k' v' kv' (push_back (to_node [] d) arr')
unfolding attach to_node IsDoc
attach-filled (text []) k' v' kv' arr' h f = absurd f
attach-filled (text (c ∷ cs)) k' v' kv' arr' h f = refl
attach-filled (numeral []) k' v' kv' arr' h f = absurd (h.0 refl)
attach-filled (numeral (c ∷ cs)) k' v' kv' arr' h f = refl
attach-filled (object no_fields) k' v' kv' arr' h f = absurd f
attach-filled (object (field k d fs)) k' v' kv' arr' h f =
    attach-members [] k' v' (add_fields no_members (field k d fs)) kv' no_items arr' (
      kv_size-add_fields (emplace k (to_node k d) no_members) fs
        (kv_size-emplace k (to_node k d) no_members))
attach-filled (array no_docs) k' v' kv' arr' h f = absurd f
attach-filled (array (doc d ds)) k' v' kv' arr' h f =
    attach-items k' v' kv' (add_docs no_items (doc d ds)) arr' (
      array_size-add_docs (push_back (to_node [] d) no_items) ds
        (array_size-push_back (to_node [] d) no_items))
