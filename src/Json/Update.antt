-- ===== src/Json/Update.antt =====
-- Writing into a dict: `d[k] = v` and `{**d, **e}`.
use andromeda_knowledge_core.Prelude.{
  String, ◌≡◌, refl, false, inl, inr, some, arith, str_eq, if◌then◌else◌, Bool-cases, eq_iff,
}
use andromeda_knowledge_core.Json.{Value, Fields, field, end, get}

-- `d[k] = v`: a key that stands in the dict keeps its place.
unfoldable pub put : String → Value → Fields → Fields
put k v end = field k v end
put k v (field j w fs) =
    let rest = put k v fs in if str_eq j k then field j v fs else field j w rest

-- `{**d, **e}`
unfoldable pub merge : Fields → Fields → Fields
merge d end = d
merge d (field k v fs) = merge (put k v d) fs

pub get-put : (k : String) (v : Value) (d : Fields) → get k (put k v d) ≡ some v
unfolding get put
get-put k v end = ground (arith, (eq_iff k k).1 refl)
get-put k v (field j w fs) = ground (arith, get-put k v fs)

-- Another key is left alone.
pub get-put_other :
    (k j : String) (v : Value) (d : Fields) → str_eq j k ≡ false → get k (put j v d) ≡ get k d
unfolding get put
get-put_other k j v end h = ground arith
get-put_other k j v (field i w fs) h = elim (Bool-cases (str_eq i j)) [
  | inl e ↦ let same = (eq_iff i j).0 e in rw (e, same, h) refl
  | inr e ↦ rw e (ground (arith, get-put_other k j v fs h))
]
