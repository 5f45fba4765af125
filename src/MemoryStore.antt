-- ===== src/MemoryStore.antt =====
-- The in-memory state store of relay/internal/state/memory.go. Strings are byte lists, a JSON value
-- is its bytes, and a method takes the clock's reading where the source calls `time.Now()`. The
-- errors, which are always nil, and the unread context are left out. The mutex makes each method one
-- step.
pub mod Keys
pub mod Points
pub mod Groups
use pushward_integrations.Prelude.{
  ℕ, suc, ◌+◌, Bool, true, false, not, ◌&&◌, Option, none, some, List, [], ◌∷◌, ◌++◌, Time,
  Duration, after, ltb, leb, if◌then◌else◌, length, take, drop, Str, Eq_str, str_eq,
}
use pushward_integrations.Prelude.GoMap.{Map, get, put, delete}

pub record MemEntry : Type 0 where
  pub value : Str
  pub expires_at : Option Time

unfoldable pub expired : Time → MemEntry → Bool
expired now e = elim e.expires_at [ none ↦ false | some t ↦ after now t ]

abbrev pub Store : Type 0
Store = Map Str MemEntry

-- The four names of an entry.
pub record Name : Type 0 where
  pub provider : Str
  pub user_key : Str
  pub key : Str
  pub sub_key : Str

unfoldable pub group_prefix : Str → Str → Str → Str
group_prefix provider user_key key = provider ++ (0 ∷ (user_key ++ (0 ∷ (key ++ (0 ∷ [])))))

unfoldable pub composite_key : Name → Str
composite_key n = n.provider ++ (0 ∷ (n.user_key ++ (0 ∷ (n.key ++ (0 ∷ n.sub_key)))))

unfoldable pub set_entry : Time → Name → Str → Duration → Store → Store
set_entry now n value ttl s =
    put (composite_key n)
      (record { value = value; expires_at = if ltb 0 ttl then some (now + ttl) else none }) s

-- What an entry shows at a time.
unfoldable pub live : Time → Option MemEntry → Option Str
unfolding expired
live now none = none
live now (some e) = if expired now e then none else some e.value

unfoldable pub get_entry : Time → Name → Store → Option Str
unfolding live
get_entry now n s = live now (get (composite_key n) s)

unfoldable pub exists : Time → Name → Store → Bool
exists now n s = elim (get (composite_key n) s) [ none ↦ false | some e ↦ not (expired now e) ]

unfoldable pub delete_entry : Name → Store → Store
delete_entry n s = delete (composite_key n) s

-- `len(k) >= len(prefix) && k[:len(prefix)] == prefix`
unfoldable pub has_prefix : Str → Str → Bool
has_prefix prefix k = leb (length prefix) (length k) && str_eq (take (length prefix) k) prefix

-- The range loop of `GetGroup`; `result` is what it has put so far.
unfoldable pub collect : Time → Str → Store → Map Str Str → Map Str Str
collect now prefix [] result = result
collect now prefix ((k, e) ∷ s) result = collect now prefix s (
    if has_prefix prefix k && not (expired now e)
    then put (drop (length prefix) k) e.value result
    else result)

unfoldable pub get_group : Time → Str → Str → Str → Store → Map Str Str
unfolding collect
get_group now provider user_key key s = collect now (group_prefix provider user_key key) s []

-- The range loops of `DeleteGroup` and `Cleanup`.
unfoldable pub delete_prefix : Str → Store → Store
delete_prefix prefix [] = []
delete_prefix prefix ((k, e) ∷ s) =
    let rest = delete_prefix prefix s in if has_prefix prefix k then rest else (k, e) ∷ rest

unfoldable pub delete_group : Str → Str → Str → Store → Store
unfolding delete_prefix
delete_group provider user_key key s = delete_prefix (group_prefix provider user_key key) s

unfoldable pub cleanup : Time → Store → Store × ℕ
cleanup now [] = ([], 0)
cleanup now ((k, e) ∷ s) =
    let (rest, count) = cleanup now s in
    if expired now e then (rest, count + 1) else ((k, e) ∷ rest, count)
