-- ===== src/Json/Size.antt =====
-- The parts of a value are no larger than the value.
use andromeda_knowledge_core.Prelude.{
  ◌≤◌, ◌<◌, String, ◌≡◌, some, List, [], ◌∷◌, map, inl, inr, arith, In, str_eq, Bool-cases,
}
use andromeda_knowledge_core.Json.{
  Value, null, str, Items, nil, cons, Fields, end, field, size, size_items, size_fields, get,
  to_list, chars,
}

pub size-pos : (v : Value) → 0 < size v
unfolding size
size-pos null = omega arith
size-pos _ = omega arith

pub size-get : (k : String) (fs : Fields) (v : Value) → get k fs ≡ some v → size v ≤ size_fields fs
unfolding get size
size-get k end v h = cc
size-get k (field j w fs) v h = elim (Bool-cases (str_eq j k)) [
  | inl e ↦ ground arith
  | inr e ↦ omega (arith, size-get k fs v (ground arith))
]

pub size-to_list : (xs : Items) (v : Value) → In v (to_list xs) → size v ≤ size_items xs
unfolding to_list size
size-to_list nil v m = absurd m
size-to_list (cons x xs) v (inl e) = omega (arith, ap_size e)
  where
    ap_size : v ≡ x → size v ≤ size x
    ap_size e = rw e (omega arith)
size-to_list (cons x xs) v (inr m) = omega (arith, size-to_list xs v m)

pub size-chars : (s : String) (v : Value) → In v (chars s) → size v ≤ 1
unfolding chars size
size-chars String.[] v m = absurd m
size-chars (String.◌∷◌ c s) v (inl e) = rw e (omega arith)
size-chars (String.◌∷◌ c s) v (inr m) = size-chars s v m

pub size-map_str : (ks : List String) (v : Value) → In v (map str ks) → size v ≤ 1
unfolding size
size-map_str [] v m = absurd m
size-map_str (k ∷ ks) v (inl e) = rw e (omega arith)
size-map_str (k ∷ ks) v (inr m) = size-map_str ks v m
