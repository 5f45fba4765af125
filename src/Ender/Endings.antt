-- ===== src/Ender/Endings.antt =====
-- The balance of the wait group of relay/internal/lifecycle/ender.go: a callback that runs to its end.
use pushward_integrations.Prelude.{
  ℕ, ◌+◌, ◌-◌, ◌≡◌, ◌≢◌, sym, refl, inl, inr, true, none, some, subst, Option-cases, Bool-cases,
  List, ◌∷◌, arith, Str, Eq_str, str_eq, str_eq_iff, get_elem?,
}
use pushward_integrations.Prelude.GoMap.{
  get, put, delete, get-put, get-delete, Distinct-put, Distinct-delete,
}
use pushward_integrations.Ender.{
  Ender, TimerPair, Callback, Phase, phase_one, phase_two, stop_pair, stop_existing, remove_at,
  own_pair, arm_phase2, clean_up, conclude, finish,
}
use pushward_integrations.Ender.Armed.{
  count-remove_at, GensUpTo-remove_at, stop_pairs-put, stop_pairs-delete, length-remove_at,
}
use pushward_integrations.Ender.Pairs.{IsPair, IsBalanced}

-- What `own_pair` found.
pub own_pair-some :
    (c : Callback) (e : Ender) (tp : TimerPair)
    → own_pair c e ≡ some tp
    → (get c.key e.timers ≡ some tp) × (tp.gen ≡ c.gen)
unfolding own_pair
own_pair-some c e tp h = (ground arith, ground arith)

pub own_pair-none :
    (c : Callback) (e : Ender) (tp : TimerPair)
    → own_pair c e ≡ none
    → get c.key e.timers ≡ some tp
    → tp.gen ≢ c.gen
unfolding own_pair
own_pair-none c e tp h there = ground arith

module _ (i : ℕ) (c : Callback) (e : Ender) (at : get_elem? e.running i ≡ some c)
    (b : IsBalanced e) where
  abbrev pub rest : List Callback
  rest = remove_at e.running i

  -- A callback that does not own its key's pair leaves every pair as it was.
  pub finish_disowned :
      own_pair c e ≡ none
      → (key : Str) (tp : TimerPair) → get key e.timers ≡ some tp
      → IsPair key tp rest e.next_gen
  finish_disowned lost key tp h =
      let p = b.pairs key tp h in
      ground (
        arith,
        p,
        own_pair-none c e tp lost,
        str_eq_iff key c.key,
        count-remove_at phase_one key tp.gen e.running i c at,
        count-remove_at phase_two key tp.gen e.running i c at,
      )

  -- Nor does it count for another key.
  pub finish_other :
      (key : Str) (tp : TimerPair)
      → get key e.timers ≡ some tp
      → key ≢ c.key
      → IsPair key tp rest e.next_gen
  finish_other key tp h other =
      let p = b.pairs key tp h in
      ground (
        arith,
        p,
        str_eq_iff key c.key,
        count-remove_at phase_one key tp.gen e.running i c at,
        count-remove_at phase_two key tp.gen e.running i c at,
      )

  pub finish_none-IsBalanced :
      own_pair c e ≡ none → IsBalanced (record e { running = rest; wg = e.wg - 1 })
  finish_none-IsBalanced lost = record {
    counted = omega (arith, b.counted, length-remove_at e.running i c at);
    distinct = b.distinct;
    gens = GensUpTo-remove_at e.next_gen e.running i b.gens;
    pairs = finish_disowned lost;
  }

  pub forget :
      IsBalanced (record e { running = rest; wg = e.wg - 1 })
      → IsBalanced (record e { running = rest; wg = e.wg - 1; deleted = c.key ∷ e.deleted })
  forget f = record { counted = f.counted; distinct = f.distinct; gens = f.gens; pairs = f.pairs }

  pub finish_one-IsBalanced :
      (tp : TimerPair)
      → own_pair c e ≡ some tp
      → c.phase ≡ phase_one
      → IsBalanced (record e {
        timers = put c.key (record tp { phase2 = some true }) e.timers;
        running = rest;
        wg = e.wg + 1 - 1;
      })
  unfolding stop_existing stop_pair
  finish_one-IsBalanced tp own ph =
      let tp' : TimerPair = record tp { phase2 = some true } in
      let (there, g) = own_pair-some c e tp own in
      let p = b.pairs c.key tp there in
      let one = count-remove_at phase_one c.key tp.gen e.running i c at in
      let two = count-remove_at phase_two c.key tp.gen e.running i c at in
      record {
        counted = ground (
          arith,
          there,
          g,
          ph,
          p,
          one,
          str_eq_iff c.key c.key,
          stop_pairs-put c.key tp' e.timers,
          length-remove_at e.running i c at,
          b.counted,
        );
        distinct = Distinct-put c.key tp' e.timers b.distinct;
        gens = GensUpTo-remove_at e.next_gen e.running i b.gens;
        pairs = λ j t h. elim (Bool-cases (str_eq c.key j)) [
          | inl same ↦ ground (
            arith,
            same,
            str_eq_iff c.key j,
            str_eq_iff c.key c.key,
            get-put c.key j tp' e.timers,
            g,
            ph,
            p,
            one,
            two,
          )
          | inr diff ↦
              finish_other j t (ground (arith, diff, get-put c.key j tp' e.timers))
                (λ q. ground (arith, diff, str_eq_iff c.key j))
        ];
      }

  pub finish_two-IsBalanced :
      (tp : TimerPair)
      → own_pair c e ≡ some tp
      → c.phase ≡ phase_two
      → IsBalanced (record e {
        timers = delete c.key e.timers;
        running = rest;
        wg = e.wg - 1;
        deleted = c.key ∷ e.deleted;
      })
  unfolding stop_existing stop_pair
  finish_two-IsBalanced tp own ph =
      let (there, g) = own_pair-some c e tp own in
      let p = b.pairs c.key tp there in
      let two = count-remove_at phase_two c.key tp.gen e.running i c at in
      record {
        counted = ground (
          arith,
          there,
          g,
          ph,
          p,
          two,
          str_eq_iff c.key c.key,
          stop_pairs-delete c.key e.timers b.distinct,
          length-remove_at e.running i c at,
          b.counted,
        );
        distinct = Distinct-delete c.key e.timers b.distinct;
        gens = GensUpTo-remove_at e.next_gen e.running i b.gens;
        pairs = λ j t h. elim (Bool-cases (str_eq c.key j)) [
          | inl same ↦ absurd (ground (arith, same, get-delete c.key j e.timers))
          | inr diff ↦
              finish_other j t (ground (arith, diff, get-delete c.key j e.timers))
                (λ q. ground (arith, diff, str_eq_iff c.key j))
        ];
      }

  -- A callback that runs to its end keeps the balance, whatever its phase and whether or not the pair
  -- is still its own.
  pub finish_of-IsBalanced :
      (phase : Phase)
      → c.phase ≡ phase
      → IsBalanced
          (record (conclude phase c e) { running = rest; wg = (conclude phase c e).wg - 1 })
  unfolding conclude
  finish_of-IsBalanced phase_one ph = elim (Option-cases (own_pair c e)) [
    | inl lost ↦ rw (lost, arm_phase2) (finish_none-IsBalanced lost)
    | inr (tp, own) ↦ rw (own, arm_phase2) (finish_one-IsBalanced tp own ph)
  ]
  finish_of-IsBalanced phase_two ph = elim (Option-cases (own_pair c e)) [
    | inl lost ↦ rw (lost, clean_up) (forget (finish_none-IsBalanced lost))
    | inr (tp, own) ↦ rw (own, clean_up) (finish_two-IsBalanced tp own ph)
  ]

pub finish_eq :
    (i : ℕ) (c : Callback) (e : Ender)
    → get_elem? e.running i ≡ some c
    → c.updated ≡ true
    → finish i e ≡ record (conclude c.phase c e) {
      running = remove_at e.running i;
      wg = (conclude c.phase c e).wg - 1;
    }
unfolding finish
finish_eq i c e there sent = ground (arith, there, sent)

pub finish-IsBalanced : (i : ℕ) (e : Ender) → IsBalanced e → IsBalanced (finish i e)
unfolding finish
finish-IsBalanced i e b = elim (Option-cases (get_elem? e.running i)) [
  | inl gone ↦ rw (gone, finish) b
  | inr (c, there) ↦ elim (Bool-cases c.updated) [
    | inr early ↦ rw (there, finish) (rw early b)
    | inl sent ↦
        subst IsBalanced (sym (finish_eq i c e there sent))
          (finish_of-IsBalanced i c e there b c.phase refl)
  ]
]
