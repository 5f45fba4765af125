-- ===== src/Widgets/Ready.antt =====
-- What a spec that `prepare` of shared/widgets/manager.go accepts is like.
use pushward_integrations.Prelude.{
  ℕ, zero, suc, ◌≢◌, ◌⊎◌, ◌≡◌, ◌≤◌, Bool, true, false, Str, arith, refl, sym, subst, Bool-cases,
  inl, inr,
}
use pushward_integrations.Prelude.Int.{ℤ, pos, negsuc}
use pushward_integrations.Prelude.Float.{Float64}
use pushward_integrations.Cipoll.Cache.{is_blank}
use pushward_integrations.Widgets.{
  Spec, ready, prepare, check_templates, with_defaults, exactly_one_source, template_of, or_default,
  is_stat_list, is_trend, is_unset, unset, value, stat_list, trend, gauge, progress_bar, other,
  Template,
}

-- One source, a template that fits it, and limits that are set: the manager keeps a negative one.
pub record IsReady {fl : Float64} (parses refers : Str → Bool) (s : Spec fl) : Type 0 where
  pub slugged : is_blank s.slug ≡ false
  pub one_source :
      ((s.source ≡ true) × (s.multi_source ≡ false) × (s.stat_list_source ≡ false))
      ⊎ ((s.source ≡ false) × (s.multi_source ≡ true) × (s.stat_list_source ≡ false))
      ⊎ ((s.source ≡ false) × (s.multi_source ≡ false) × (s.stat_list_source ≡ true))
  pub settled : is_unset s.template ≡ false
  pub stat_list_source : is_stat_list s.template ≡ s.stat_list_source
  pub trend_source : is_trend s.template ≡ true → s.source ≡ true
  pub interval : 1 ≤ s.interval
  pub max_stat_rows : s.max_stat_rows ≢ pos 0
  pub max_series : s.max_series ≢ pos 0
  pub miss_grace : s.miss_grace ≢ pos 0
  pub slug_template :
      s.multi_source ≡ true → (parses s.slug_template ≡ true) × (refers s.slug_template ≡ true)

module _ (fl : Float64) (parses refers : Str → Bool) where
  check_templates-ready :
      (s s' : Spec fl)
      → check_templates fl parses refers s ≡ ready s'
      → (s' ≡ s)
        × (s.multi_source ≡ true
            → (parses s.slug_template ≡ true) × (refers s.slug_template ≡ true))
  unfolding check_templates
  check_templates-ready s s' h = ground arith

  prepare-checks :
      (s s' : Spec fl)
      → prepare fl parses refers s ≡ ready s'
      → (is_blank s.slug ≡ false)
        × (exactly_one_source fl s ≡ true)
        × (is_stat_list (template_of fl s) ≡ s.stat_list_source)
        × (is_trend (template_of fl s) ≡ true → s.source ≡ true)
        × (check_templates fl parses refers (with_defaults fl s) ≡ ready s')
  unfolding prepare
  prepare-checks s s' h = ground (arith, h)

  template_settled :
      (s : Spec fl) (t : Template) → s.template ≡ t → is_unset (template_of fl s) ≡ false
  template_settled s unset e = elim (Bool-cases s.stat_list_source) [
    | inl rows ↦ rw (e, rows) refl
    | inr none_of_it ↦ rw (e, none_of_it) refl
  ]
  template_settled s value e = rw e refl
  template_settled s stat_list e = rw e refl
  template_settled s trend e = rw e refl
  template_settled s gauge e = rw e refl
  template_settled s progress_bar e = rw e refl
  template_settled s other e = rw e refl

  single :
      (s : Spec fl)
      → exactly_one_source fl s ≡ true
      → ((s.source ≡ true) × (s.multi_source ≡ false) × (s.stat_list_source ≡ false))
        ⊎ ((s.source ≡ false) × (s.multi_source ≡ true) × (s.stat_list_source ≡ false))
        ⊎ ((s.source ≡ false) × (s.multi_source ≡ false) × (s.stat_list_source ≡ true))
  unfolding exactly_one_source
  single s h = ground (arith, h)

  default_set : (n : ℤ) (d : ℕ) → or_default fl n (suc d) ≢ pos 0
  default_set (pos zero) d = ground arith
  default_set (pos (suc n)) d = ground arith
  default_set (negsuc n) d = ground arith

  with_defaults-IsReady :
      (s : Spec fl)
      → is_blank s.slug ≡ false
      → exactly_one_source fl s ≡ true
      → is_stat_list (template_of fl s) ≡ s.stat_list_source
      → (is_trend (template_of fl s) ≡ true → s.source ≡ true)
      → (s.multi_source ≡ true → (parses s.slug_template ≡ true) × (refers s.slug_template ≡ true))
      → IsReady parses refers (with_defaults fl s)
  unfolding with_defaults exactly_one_source
  with_defaults-IsReady s slug one listed drawn slugs = record {
    slugged = slug;
    one_source = single s one;
    settled = template_settled s s.template refl;
    stat_list_source = listed;
    trend_source = drawn;
    interval = ground arith;
    max_stat_rows = default_set s.max_stat_rows 5;
    max_series = default_set s.max_series 19;
    miss_grace = default_set s.miss_grace 1;
    slug_template = slugs;
  }

  -- A spec that is accepted has a slug, exactly one source, a template that is settled and fits the source,
  -- a positive interval, limits that are not 0, and, with several series, a slug template that parses and
  -- has an action.
  pub prepare-IsReady :
      (s s' : Spec fl) → prepare fl parses refers s ≡ ready s' → IsReady parses refers s'
  unfolding with_defaults
  prepare-IsReady s s' h =
      let (slug, one, listed, drawn, checked) = prepare-checks s s' h in
      let (same, slugs) = check_templates-ready (with_defaults fl s) s' checked in
      subst (λ (x : Spec fl). IsReady parses refers x) (sym same)
        (with_defaults-IsReady s slug one listed drawn slugs)
