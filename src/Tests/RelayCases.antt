-- ===== src/Tests/RelayCases.antt =====
-- The relay's components at concrete inputs: the tenants' breakers, the bounded map and the store.
use pushward_integrations.Prelude.{
  ℕ, ◌+◌, ◌≡◌, ◌≢◌, refl, false, ◌&&◌, List, [], ◌∷◌, arith, none, some, Str, Eq_str, str_eq, ltb,
  if◌then◌else◌,
}
use pushward_integrations.Prelude.GoMap.{get, put, delete, Distinct}
use pushward_integrations.Breaker
use pushward_integrations.Breaker.{new_circuit_breaker, is_open, state_half_open}
use pushward_integrations.TenantBreaker.{
  ServerEvent, fails, asks, server_run, new_server_breaker, TenantBreaker, tenant_allow,
}
use pushward_integrations.TenantBreaker.Isolation.{two_tenants_never_open}
use pushward_integrations.LruMap.{Entry, LruMap, Created, IsRange, create_locked}
use pushward_integrations.LruMap.Eviction.{IsValid, create_locked-IsValid}
use pushward_integrations.MemoryStore.{
  Name, Store, set_entry, get_entry, delete_group, composite_key,
}
use pushward_integrations.MemoryStore.Keys.{IsName}
use pushward_integrations.MemoryStore.Points.{get-set}
use pushward_integrations.MemoryStore.Groups.{get-delete_group, SameGroup}

abbrev pub tenant_a : Str
tenant_a = b'a' ∷ []

abbrev pub tenant_b : Str
tenant_b = b'b' ∷ []

abbrev pub tenant_c : Str
tenant_c = b'c' ∷ []

abbrev pub faults : List ServerEvent
faults = fails 1 tenant_a ∷ fails 2 tenant_a ∷ asks 2 ∷ fails 3 tenant_b ∷ fails 4 tenant_a ∷ []

abbrev pub bystander : TenantBreaker
bystander = record { tenant = tenant_c; own = new_circuit_breaker 3 10 }

-- Four faults of two tenants leave the server breaker closed, at the threshold of two.
two_tenants_never_open_example :
    (is_open (server_run faults (new_server_breaker 2 10)).cb ≡ false)
    × ((tenant_allow 5 bystander (server_run faults (new_server_breaker 2 10))).2
        ≡ (Breaker.allow 5 bystander.own).1)
two_tenants_never_open_example =
    two_tenants_never_open tenant_a tenant_b 2 10 faults 5 bystander (ground arith)

-- A full map of two, and a new key.
abbrev pub entry : ℕ → ℕ → Entry ℕ
entry v t = record { value = v; last_access = t }

abbrev pub full : LruMap ℕ
full = record { entries = (tenant_a, entry 1 10) ∷ (tenant_b, entry 2 20) ∷ []; max_size = 2 }

full-Distinct : Distinct full.entries
unfolding get str_eq
full-Distinct = ground arith

full-IsValid : IsValid full
full-IsValid = record { positive = omega arith; bounded = omega arith; distinct = full-Distinct }

full-IsRange : IsRange full.entries full.entries
full-IsRange = record { same = λ k. refl; distinct = full-Distinct; size = refl }

create_locked-IsValid_example :
    (c : Created ℕ) × (create_locked 30 tenant_c 3 full.entries full ≡ some c)
    × IsValid c.after
    × (c.after.max_size ≡ full.max_size)
create_locked-IsValid_example =
    create_locked-IsValid 30 tenant_c 3 full.entries full full-IsValid full-IsRange

abbrev pub after_c : Created ℕ
after_c = record {
  after = record { entries = (tenant_b, entry 2 20) ∷ (tenant_c, entry 3 30) ∷ []; max_size = 2 };
  result = 3;
  evicted = some (tenant_a, 1);
}

evicts_a : create_locked 30 tenant_c 3 full.entries full ≡ some after_c
unfolding create_locked get str_eq put delete
evicts_a = refl

-- Two names of one group, and one of another.
abbrev pub name : Str → Str → Name
name group sub = record { provider = b'p' ∷ []; user_key = b'u' ∷ []; key = group; sub_key = sub }

abbrev pub name_a : Name
name_a = name tenant_a (b'1' ∷ [])

abbrev pub name_b : Name
name_b = name tenant_b (b'1' ∷ [])

name_a-IsName : IsName name_a
name_a-IsName = record { provider = ground arith; user_key = ground arith; key = ground arith }

name_b-IsName : IsName name_b
name_b-IsName = record { provider = ground arith; user_key = ground arith; key = ground arith }

abbrev pub stored : Store
stored = set_entry 1 name_b (b'y' ∷ []) 0 (set_entry 1 name_a (b'x' ∷ []) 5 [])

stored-Distinct : Distinct stored
unfolding set_entry get composite_key put str_eq
stored-Distinct = ground arith

get-set_example :
    (name_a ≡ name_b
      → get_entry 9 name_b (set_entry 1 name_a (b'z' ∷ []) 5 stored)
        ≡ (if ltb 0 5 && ltb (1 + 5) 9 then none else some (b'z' ∷ [])))
    × (name_a ≢ name_b
        → get_entry 9 name_b (set_entry 1 name_a (b'z' ∷ []) 5 stored) ≡ get_entry 9 name_b stored)
get-set_example = get-set 1 9 name_a name_b (b'z' ∷ []) 5 stored name_a-IsName name_b-IsName

get-delete_group_example :
    let s' = delete_group name_a.provider name_a.user_key name_a.key stored in
    (SameGroup name_b name_a → get_entry 2 name_b s' ≡ none)
    × (¬ SameGroup name_b name_a → get_entry 2 name_b s' ≡ get_entry 2 name_b stored)
get-delete_group_example = get-delete_group 2 name_b name_a stored name_b-IsName name_a-IsName
