-- ===== src/Widgets/Scalar/Held.antt =====
-- The content that the server holds of a scalar widget, shared/widgets/manager.go. A call that fails is
-- taken not to have been applied.
use pushward_integrations.Prelude.{
  ◌≡◌, refl, sym, subst, Bool, true, false, Bool-cases, Option, none, some, Option-cases, inl, inr,
  ◌⊎◌, if◌then◌else◌,
}
use pushward_integrations.Prelude.Float.{Float64}
use pushward_integrations.Widgets.{Spec, Sent, nothing, creates, updates, heartbeat_due}
use pushward_integrations.Widgets.Scalar.{
  ScalarState, Tick, run_scalar, first_create, update, moved, tick_scalar,
}

if_false {ℓ} : {A : Type ℓ} {b : Bool} {y : A} (x : A) → b ≡ false → (if b then x else y) ≡ y
if_false x h = rw h refl

module _ {K : Type 0} where
  -- The widget on the server after a call, none before it is created.
  abbrev pub held_after : Bool → Sent K → Option K → Option K
  held_after lands nothing held = held
  held_after lands (creates k) held = if lands then some k else held
  held_after lands (updates k) held = if lands then some k else held

module _ (fl : Float64) (K : Type 0) (spec : Spec fl) (render : fl.F → K) where
  -- The widget is still to be created, or what the loop has stored is what the server holds.
  abbrev pub Mirrors : Option K → ScalarState fl K → Type 0
  Mirrors held st =
      ((held ≡ none) × (st.needs_create ≡ true))
      ⊎ ((k : K) × (held ≡ some k) × (st.last_content ≡ some k) × (st.needs_create ≡ false))

  -- What is sent is the new content of a value that moved, or leaves the server's content as it is.
  abbrev pub IsThrifty : Tick fl K → ScalarState fl K → Option K → Sent K → Type 0
  IsThrifty tk st held nothing = Unit
  IsThrifty tk st held (creates k) = held ≡ none
  IsThrifty tk st held (updates k) =
      (held ≡ some k)
      ⊎ ((v : fl.F) × (tick_scalar fl K tk.polled ≡ some v)
          × (moved fl K spec st.last_value v ≡ true)
          × (k ≡ render v))

  abbrev After : Tick fl K → ScalarState fl K → Option K → Sent K × ScalarState fl K → Type 0
  After tk st held (sent, st') =
      Mirrors (held_after tk.lands sent held) st' × IsThrifty tk st held sent

  update-After :
      (tk : Tick fl K) (v : fl.F) (st : ScalarState fl K) (k : K)
      → tick_scalar fl K tk.polled ≡ some v
      → st.last_content ≡ some k
      → st.needs_create ≡ false
      → After tk st (some k) (update fl K spec render tk v st)
  unfolding update
  update-After tk v st k read stored made = elim (Bool-cases (moved fl K spec st.last_value v)) [
    | inl changed ↦ elim (Bool-cases tk.lands) [
      | inl lands ↦
          rw (changed, lands) (inr (render v, refl, refl, made), inr (v, read, changed, refl))
      | inr lost ↦ rw (changed, lost) (inr (k, refl, stored, made), inr (v, read, changed, refl))
    ]
    | inr same ↦ elim (Bool-cases (heartbeat_due fl spec st.last_sent tk.checked)) [
      | inr fresh ↦ rw (same, fresh) (inr (k, refl, stored, made), tt)
      | inl due ↦ elim (Bool-cases tk.lands) [
        | inl lands ↦ rw (same, due, stored, lands) (inr (k, refl, refl, made), inl refl)
        | inr lost ↦ rw (same, due, stored, lost) (inr (k, refl, refl, made), inl refl)
      ]
    ]
  ]

  first-After :
      (tk : Tick fl K) (v : fl.F) (st : ScalarState fl K)
      → st.needs_create ≡ true
      → After tk st none (first_create fl K spec render tk v st)
  unfolding first_create
  first-After tk v st waits = elim (Bool-cases tk.lands) [
    | inl lands ↦ rw lands (inr (render v, refl, refl, refl), refl)
    | inr lost ↦ rw lost (inl (refl, waits), refl)
  ]

  -- Every tick keeps this: either the widget is still to be created and the loop has put nothing on the
  -- server, or the stored content is what the server holds. A widget that exists is only sent the content of
  -- a value that moved, or that the mode always sends, or else the very content that it has.
  pub run_scalar-Mirrors :
      (tk : Tick fl K) (st : ScalarState fl K) (held : Option K)
      → Mirrors held st
      → let (sent, st') = run_scalar fl K spec render tk st in
        Mirrors (held_after tk.lands sent held) st' × IsThrifty tk st held sent
  unfolding run_scalar
  run_scalar-Mirrors tk st held m = elim (Option-cases (tick_scalar fl K tk.polled)) [
    | inl unread ↦ rw unread (m, tt)
    | inr (v, read) ↦ elim m [
      | inl (absent, waits) ↦ simp (read, waits, absent) (first-After tk v st waits)
      | inr (k, there, stored, made) ↦
          simp (read, there)
            (subst (After tk st (some k))
              (sym (if_false (first_create fl K spec render tk v st) made))
              (update-After tk v st k read stored made))
    ]
  ]
