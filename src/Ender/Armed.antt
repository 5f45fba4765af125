-- ===== src/Ender/Armed.antt =====
-- The number of armed timers in the map of relay/internal/lifecycle/ender.go, as pairs come and go.
use pushward_integrations.Prelude.{
  ℕ, zero, suc, ◌+◌, ◌≡◌, refl, Bool, true, false, some, List, [], ◌∷◌, arith, Str, Eq_str,
  str_eq_iff, length, get_elem?, ◌≤◌, ◌<◌, ◌&&◌, ◌==◌, str_eq,
}
use pushward_integrations.Prelude.GoMap.{Map, get, put, delete, delete_absent, Distinct}
use pushward_integrations.Ender.{
  TimerPair, Callback, Phase, phase_one, phase_two, done_for, stop_pair, stop_existing, stop_pairs,
  set_at, remove_at,
}

pub stop_pairs-put :
    (k : Str) (tp : TimerPair) (m : Map Str TimerPair)
    → stop_pairs (put k tp m) + stop_existing (get k m) ≡ stop_pairs m + stop_pair tp
unfolding stop_pairs stop_existing put get
stop_pairs-put k tp [] = omega arith
stop_pairs-put k tp ((j, old) ∷ m) = ground (arith, stop_pairs-put k tp m)

pub stop_pairs-delete :
    (k : Str) (m : Map Str TimerPair)
    → Distinct m
    → stop_pairs (delete k m) + stop_existing (get k m) ≡ stop_pairs m
unfolding stop_pairs stop_existing delete get
stop_pairs-delete k [] d = omega arith
stop_pairs-delete k ((j, old) ∷ m) d =
    ground (arith, stop_pairs-delete k m d.1, delete_absent k m, str_eq_iff j k)

pub length-set_at : (cs : List Callback) (i : ℕ) (c : Callback) → length (set_at cs i c) ≡ length cs
length-set_at [] i c = refl
length-set_at (d ∷ cs) zero c = refl
length-set_at (d ∷ cs) (suc i) c = omega (arith, length-set_at cs i c)

pub length-remove_at :
    (cs : List Callback) (i : ℕ) (c : Callback)
    → get_elem? cs i ≡ some c
    → length (remove_at cs i) + 1 ≡ length cs
length-remove_at [] i c h = cc
length-remove_at (d ∷ cs) zero c h = omega arith
length-remove_at (d ∷ cs) (suc i) c h = omega (arith, length-remove_at cs i c h)

abbrev pub same_phase : Phase → Phase → Bool
same_phase phase_one phase_one = true
same_phase phase_two phase_two = true
same_phase _ _ = false

abbrev pub is_of : Phase → Str → ℕ → Callback → Bool
is_of phase key gen c = same_phase phase c.phase && str_eq key c.key && gen == c.gen

-- How many callbacks of a phase of one sequence run.
unfoldable pub count : Phase → Str → ℕ → List Callback → ℕ
count phase key gen [] = 0
count phase key gen (c ∷ cs) = done_for (is_of phase key gen c) + count phase key gen cs

pub count-set_at :
    (phase : Phase) (key : Str) (gen : ℕ) (cs : List Callback) (i : ℕ) (c : Callback)
    → get_elem? cs i ≡ some c
    → count phase key gen (set_at cs i (record c { updated = true })) ≡ count phase key gen cs
unfolding count
count-set_at phase key gen [] i c h = refl
count-set_at phase key gen (d ∷ cs) zero c h = ground (arith, h)
count-set_at phase key gen (d ∷ cs) (suc i) c h = omega (arith, count-set_at phase key gen cs i c h)

pub count-remove_at :
    (phase : Phase) (key : Str) (gen : ℕ) (cs : List Callback) (i : ℕ) (c : Callback)
    → get_elem? cs i ≡ some c
    → count phase key gen (remove_at cs i) + done_for (is_of phase key gen c)
      ≡ count phase key gen cs
unfolding count
count-remove_at phase key gen [] i c h = cc
count-remove_at phase key gen (d ∷ cs) zero c h = ground (arith, h)
count-remove_at phase key gen (d ∷ cs) (suc i) c h =
    omega (arith, count-remove_at phase key gen cs i c h)

-- The sequences of the callbacks that run are no newer than the last one scheduled.
abbrev pub GensUpTo : ℕ → List Callback → Type 0
GensUpTo n [] = Unit
GensUpTo n (c ∷ cs) = (c.gen ≤ n) × GensUpTo n cs

pub GensUpTo-suc : (n : ℕ) (cs : List Callback) → GensUpTo n cs → GensUpTo (n + 1) cs
GensUpTo-suc n [] g = tt
GensUpTo-suc n (c ∷ cs) g = (omega arith, GensUpTo-suc n cs g.1)

pub GensUpTo-set_at :
    (n : ℕ) (cs : List Callback) (i : ℕ) (c : Callback)
    → get_elem? cs i ≡ some c
    → GensUpTo n cs
    → GensUpTo n (set_at cs i (record c { updated = true }))
GensUpTo-set_at n [] i c h g = tt
GensUpTo-set_at n (d ∷ cs) zero c h g = (ground (arith, h), g.1)
GensUpTo-set_at n (d ∷ cs) (suc i) c h g = (g.0, GensUpTo-set_at n cs i c h g.1)

pub GensUpTo-remove_at :
    (n : ℕ) (cs : List Callback) (i : ℕ) → GensUpTo n cs → GensUpTo n (remove_at cs i)
GensUpTo-remove_at n [] i g = tt
GensUpTo-remove_at n (d ∷ cs) zero g = g.1
GensUpTo-remove_at n (d ∷ cs) (suc i) g = (g.0, GensUpTo-remove_at n cs i g.1)

pub count_new :
    (phase : Phase) (key : Str) (n : ℕ) (cs : List Callback)
    → GensUpTo n cs
    → count phase key (n + 1) cs ≡ 0
unfolding count
count_new phase key n [] g = refl
count_new phase key n (c ∷ cs) g = ground (arith, count_new phase key n cs g.1)

pub count-pos :
    (phase : Phase) (key : Str) (gen : ℕ) (cs : List Callback) (i : ℕ) (c : Callback)
    → get_elem? cs i ≡ some c
    → is_of phase key gen c ≡ true
    → 0 < count phase key gen cs
count-pos phase key gen cs i c h m = ground (arith, m, count-remove_at phase key gen cs i c h)
