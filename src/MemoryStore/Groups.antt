-- ===== src/MemoryStore/Groups.antt =====
-- The group operations of relay/internal/state/memory.go against the reads of single entries.
use pushward_integrations.Prelude.{
  ◌≡◌, ◌≢◌, refl, sym, ap, ◌∙◌, inl, inr, true, Option, none, some, [], ◌∷◌, ◌++◌, arith, length,
  drop, Str, Eq_str, str_eq_iff, Time, if◌then◌else◌, Bool-cases,
}
use pushward_integrations.Prelude.GoMap.{Map, get, put, get-put, Distinct}
use pushward_integrations.MemoryStore.{
  Name, Store, composite_key, group_prefix, get_entry, live, has_prefix, collect, get_group,
  delete_prefix, delete_group,
}
use pushward_integrations.MemoryStore.Keys.{
  IsName, composite_key-injective, composite_key-prefix, drop-append, has_prefix-append,
  append-drop,
}

abbrev or_else : Option Str → Option Str → Option Str
or_else none o = o
or_else (some v) o = some v

append-cancel : (p a b : Str) → p ++ a ≡ p ++ b → a ≡ b
append-cancel [] a b e = e
append-cancel (c ∷ p) a b e = append-cancel p a b (ground arith)

or_else_nil : (j : Str) (o : Option Str) → or_else o (get j []) ≡ o
unfolding get
or_else_nil j none = refl
or_else_nil j (some v) = refl

-- A key of the group is the prefix and a sub key.
in_group :
    (prefix k j : Str)
    → has_prefix prefix k ≡ true
    → (k ≡ prefix ++ j → drop (length prefix) k ≡ j)
      × (drop (length prefix) k ≡ j → k ≡ prefix ++ j)
in_group prefix k j h =
    ((λ e. rw e (drop-append prefix j)), (λ e. append-drop prefix k h ∙ ap (λ r. prefix ++ r) e))

get-collect :
    (now : Time) (prefix j : Str) (s : Store) (result : Map Str Str)
    → Distinct s
    → get j (collect now prefix s result) ≡ or_else (live now (get (prefix ++ j) s)) (get j result)
unfolding collect get live
get-collect now prefix j [] result d = refl
get-collect now prefix j ((k, e) ∷ s) result d = elim (Bool-cases (has_prefix prefix k)) [
  | inl within ↦
      let i = drop (length prefix) k in
      ground (
        arith,
        within,
        in_group prefix k j within,
        str_eq_iff k (prefix ++ j),
        str_eq_iff i j,
        get-put i j e.value result,
        get-collect now prefix j s result d.1,
        get-collect now prefix j s (put i e.value result) d.1,
      )
  | inr outside ↦ ground (
    arith,
    outside,
    has_prefix-append prefix j,
    str_eq_iff k (prefix ++ j),
    get-collect now prefix j s result d.1,
  )
]

-- `GetGroup` maps a sub key to what `Get` reads under the names of the group and that sub key, at the
-- same time: no more and no less, and nothing of other groups, if the store's keys are distinct.
pub get-get_group :
    (now : Time) (n : Name) (s : Store)
    → Distinct s
    → get n.sub_key (get_group now n.provider n.user_key n.key s) ≡ get_entry now n s
unfolding get_group get_entry
get-get_group now n s d = rw composite_key-prefix (
    get-collect now (group_prefix n.provider n.user_key n.key) n.sub_key s [] d
    ∙ or_else_nil n.sub_key _)

get-delete_prefix :
    (prefix k : Str) (s : Store)
    → get k (delete_prefix prefix s) ≡ (if has_prefix prefix k then none else get k s)
unfolding delete_prefix get
get-delete_prefix prefix k [] = ground arith
get-delete_prefix prefix k ((j, e) ∷ s) =
    ground (arith, get-delete_prefix prefix k s, str_eq_iff j k)

-- Two names of one group.
abbrev pub SameGroup : Name → Name → Type 0
SameGroup m n = (m.provider ≡ n.provider) × (m.user_key ≡ n.user_key) × (m.key ≡ n.key)

prefix_of_same :
    (m n : Name)
    → SameGroup m n
    → has_prefix (group_prefix n.provider n.user_key n.key) (composite_key m) ≡ true
prefix_of_same m n (p, u, k) =
    rw (composite_key-prefix, p, u, k)
      (has_prefix-append (group_prefix n.provider n.user_key n.key) m.sub_key)

same_of_prefix :
    (m n : Name)
    → IsName m
    → IsName n
    → has_prefix (group_prefix n.provider n.user_key n.key) (composite_key m) ≡ true
    → SameGroup m n
same_of_prefix m n hm hn h =
    let prefix = group_prefix n.provider n.user_key n.key in
    let n' : Name = record n { sub_key = drop (length prefix) (composite_key m) } in
    let e : composite_key m ≡ composite_key n' =
      append-drop prefix (composite_key m) h ∙ sym (composite_key-prefix n') in
    let hn' : IsName n' = record { provider = hn.provider; user_key = hn.user_key; key = hn.key } in
    let q = composite_key-injective m n' hm hn' e in
    (ap (λ (x : Name). x.provider) q, ap (λ (x : Name). x.user_key) q, ap (λ (x : Name). x.key) q)

-- After `DeleteGroup` nothing of the group is read, at any time, and every entry of another group is
-- read as before; the names hold no NUL byte in their first three parts.
pub get-delete_group :
    (now : Time) (m n : Name) (s : Store)
    → IsName m
    → IsName n
    → let s' = delete_group n.provider n.user_key n.key s in
      (SameGroup m n → get_entry now m s' ≡ none)
      × (¬ SameGroup m n → get_entry now m s' ≡ get_entry now m s)
unfolding delete_group get_entry live
get-delete_group now m n s hm hn =
    let gone = get-delete_prefix (group_prefix n.provider n.user_key n.key) (composite_key m) s in
    let prefixed = has_prefix (group_prefix n.provider n.user_key n.key) (composite_key m) in
    let outside : ¬ SameGroup m n → prefixed ≢ true = λ d q. d (same_of_prefix m n hm hn q) in
    ((λ g. ground (arith, gone, prefix_of_same m n g)), (λ d. ground (arith, gone, outside d)))
