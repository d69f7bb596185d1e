-- ===== src/Objects/Passes.antt =====
-- Predicates that one step keeps, through the passes over filters and properties.
use obs_osc.Base.{ℕ, suc, Bool, not, List, [], ◌∷◌, Option, if_both, Option_both, Bytes}
use obs_osc.Net.{Endpoint}
use obs_osc.Util.Visit.{any, selected}
use obs_osc.Util.Visiting.{osc_visit_sources-Keeps}
use obs_osc.Obs.Actions.{Handle}
use obs_osc.Obs.Readings.{Property, Env, Ui, reads}
use obs_osc.Obs.Keeps.{Keeps, VisitKeeps}
use obs_osc.Objects.Filters.{
  filter_enable, enable_chain, enable_visit, run_filter_enable_pass, resolve_filter,
}
use obs_osc.Objects.Params.{
  ParamMode, passes_over, param_is_scalar, stops, handle_property, param_loop, param_visit,
  run_param_pass,
}

module _ (P : Ui → Type 0) (env : Env) where
  module _ (selector : Bytes) (value : Option Bool) (to : Option Endpoint)
      (k : (source_name : Bytes) (filter : Handle)
        → Keeps P (filter_enable env to value source_name filter)) where
    enable_chain-Keeps :
        (source_name : Bytes) (index : ℕ) (filters : List Handle)
        → Keeps P (enable_chain env selector value to source_name index filters)
    unfolding enable_chain
    enable_chain-Keeps source_name index [] u h = h
    enable_chain-Keeps source_name index (f ∷ fs) u h =
        enable_chain-Keeps source_name (suc index) fs _ (
          if_both P (not (selected env selector ((reads env u).source_name f) index)) _ _ h
            (k source_name f u h))

    pub run_filter_enable_pass-Keeps :
        (source_pattern : Bytes)
        → Keeps P (run_filter_enable_pass env source_pattern selector value to)
    unfolding run_filter_enable_pass enable_visit
    run_filter_enable_pass-Keeps source_pattern =
        osc_visit_sources-Keeps P env source_pattern any (enable_visit env selector value to)
          (λ s u h.
            enable_chain-Keeps ((reads env u).source_name s) 0 ((reads env u).filters s) u h)

  module _ (selector : Bytes) (mode : ParamMode)
      (k : (base : Bytes) (filter : Handle) (prop : Property)
        → Keeps P (handle_property env mode base filter prop)) where
    param_loop-Keeps :
        (base : Bytes) (filter : Handle) (props : List Property)
        → Keeps P (param_loop env mode base filter props)
    unfolding param_loop
    param_loop-Keeps base filter [] u h = h
    param_loop-Keeps base filter (prop ∷ props) u h =
        let rest = param_loop-Keeps base filter props in
        if_both P (passes_over mode prop.name) _ _ (rest u h) (
          if_both P (not (param_is_scalar prop.type)) _ _ (rest u h) (
            if_both P (stops mode) _ _ (k base filter prop u h)
              (rest (handle_property env mode base filter prop u) (k base filter prop u h))))

    param_visit-Keeps : VisitKeeps P (param_visit env selector mode)
    unfolding param_visit
    param_visit-Keeps source u h =
        Option_both (λ (out : Ui × Bool). P out.0)
          (resolve_filter env (reads env u) source selector) _ _ h
          (λ f. param_loop-Keeps _ f ((reads env u).properties f) u h)

    pub run_param_pass-Keeps :
        (source_pattern : Bytes) → Keeps P (run_param_pass env source_pattern selector mode)
    unfolding run_param_pass
    run_param_pass-Keeps source_pattern =
        osc_visit_sources-Keeps P env source_pattern any (param_visit env selector mode)
          param_visit-Keeps
