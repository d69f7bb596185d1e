-- ===== src/Controls/Reading.antt =====
-- Predicates that replies keep, through `poll_dispatch`.
use obs_osc.Base.{true, false, none, some, if_both, Option_both, Bytes, str_eq}
use obs_osc.Net.{Endpoint}
use obs_osc.Addresses.Names
use obs_osc.Addresses.Names.{outputs}
use obs_osc.Util.Visit.{input_kind}
use obs_osc.Util.Visiting.{osc_visit_sources-Keeps}
use obs_osc.Obs.Readings.{Env, Ui, reads}
use obs_osc.Obs.Keeps.{Keeps}
use obs_osc.Objects.Items.{reply, osc_bool, visible, locked, poll_transform}
use obs_osc.Objects.Misc.{poll_input_state}
use obs_osc.Objects.Reading.{
  ReplyKeeps, poll_item_flag-Keeps, poll_item_order-Keeps, poll_transform-Keeps,
  poll_filter_enabled-Keeps, poll_filter_params-Keeps, poll_filter_param-Keeps,
  poll_input_state-Keeps,
}
use obs_osc.Controls.Branch.{done, refused, miss}
use obs_osc.Controls.Chains.{
  Answers, Answers-orelse, Answers-exactly, Answers-under, Answers-exact_output, split_else_both,
}
use obs_osc.Controls.Sources.{
  get_input_by_name, poll_mute_visit, poll_mute_inputs, poll_media_state,
}
use obs_osc.Controls.Poll.{
  Poll, every, poll_values, poll_volume, poll_db, poll_media, poll_sources, poll_bare, poll_filter,
  poll_fields, poll_objects, poll_route, answered,
}

module _ (P : Ui → Type 0) (env : Env) (to : Endpoint) (k : ReplyKeeps P to) where
  poll_values-Answers : (a : Bytes) → Answers (Keeps P) (poll_values env to a)
  unfolding poll_values
  poll_values-Answers a =
      let Q = Keeps P in
      Answers-orelse Q _ _ (Answers-exactly Q a Names.studio _ (λ u h. k _ _ u h)) (
        Answers-orelse Q _ _ (Answers-exactly Q a Names.program _ (λ u h. k _ _ u h)) (
          Answers-orelse Q _ _ (Answers-exactly Q a Names.preview _ (λ u h. k _ _ u h)) (
            Answers-orelse Q _ _ (Answers-exactly Q a Names.transition _ (λ u h. k _ _ u h)) (
              Answers-orelse Q _ _ (Answers-exactly Q a Names.profile _ (λ u h. k _ _ u h)) (
                Answers-orelse Q _ _ (Answers-exactly Q a Names.collection _ (λ u h. k _ _ u h)) (
                  Answers-orelse Q _ _
                    (Answers-exactly Q a Names.record_paused _ (λ u h. k _ _ u h))
                    (Answers-exact_output Q a outputs
                      (λ out u. reply to out.base (osc_bool ((reads env u).output_active out.id)) u)
                      (λ out u h. k _ _ u h))))))))

  poll_mute_inputs-Keeps : (pattern : Bytes) → Keeps P (poll_mute_inputs env to pattern)
  unfolding poll_mute_inputs poll_mute_visit
  poll_mute_inputs-Keeps pattern =
      osc_visit_sources-Keeps P env pattern input_kind (poll_mute_visit env to) (λ s u h. k _ _ u h)

  poll_media_state-Keeps : (name : Bytes) → Keeps P (poll_media_state env to name)
  unfolding poll_media_state
  poll_media_state-Keeps name u h =
      Option_both P (get_input_by_name env u name) _ _ h (λ s. k _ _ u h)

  poll_volume-Keeps : (name : Bytes) → Keeps P (poll_volume env to name)
  unfolding poll_volume
  poll_volume-Keeps name u h = Option_both P (get_input_by_name env u name) _ _ h (λ s. k _ _ u h)

  poll_db-Keeps : (name : Bytes) → Keeps P (poll_db env to name)
  unfolding poll_db
  poll_db-Keeps name u h = Option_both P (get_input_by_name env u name) _ _ h (λ s. k _ _ u h)

  poll_media-Answers : (rest : Bytes) → Answers (Keeps P) (poll_media env to rest)
  unfolding poll_media
  poll_media-Answers rest =
      split_else_both (Answers (Keeps P)) rest _ _ (poll_media_state-Keeps rest) (λ name verb.
        if_both (Answers (Keeps P)) (str_eq verb Names.media_state_node) _ _
          (poll_media_state-Keeps name) tt)

  poll_sources-Answers : (a : Bytes) → Answers (Keeps P) (poll_sources env to a)
  unfolding poll_sources
  poll_sources-Answers a =
      let Q = Keeps P in
      Answers-orelse Q _ _
        (Answers-under Q a Names.mute_prefix (λ p. done (poll_mute_inputs env to p))
          poll_mute_inputs-Keeps)
        (Answers-orelse Q _ _
          (Answers-under Q a Names.volume_prefix (λ n. done (poll_volume env to n))
            poll_volume-Keeps)
          (Answers-orelse Q _ _
            (Answers-under Q a Names.db_prefix (λ n. done (poll_db env to n)) poll_db-Keeps)
            (Answers-under Q a Names.media_prefix (poll_media env to) poll_media-Answers)))

  poll_bare-Answers : (a : Bytes) → Answers (Keeps P) (poll_bare env to a)
  unfolding poll_bare
  poll_bare-Answers a =
      let Q = Keeps P in
      Answers-orelse Q _ _
        (Answers-exactly Q a Names.visible _ (poll_item_flag-Keeps P env to k every every visible))
        (Answers-orelse Q _ _
          (Answers-exactly Q a Names.locked _ (poll_item_flag-Keeps P env to k every every locked))
          (Answers-orelse Q _ _
            (Answers-exactly Q a Names.order_route _ (poll_item_order-Keeps P env to k every every))
            (Answers-orelse Q _ _
              (Answers-exactly Q a Names.filter_route _
                (poll_filter_enabled-Keeps P env to k every every))
              (Answers-orelse Q _ _
                (Answers-exactly Q a Names.active _ (poll_input_state-Keeps P env to k every false))
                (Answers-orelse Q _ _
                  (Answers-exactly Q a Names.showing _
                    (poll_input_state-Keeps P env to k every true))
                  (Answers-exactly Q a Names.transform (poll_transform env to every every none)
                    (poll_transform-Keeps P env to k every every none)))))))

  poll_filter-Keeps : (rest : Bytes) → Keeps P (poll_filter env to rest)
  unfolding poll_filter
  poll_filter-Keeps rest =
      split_else_both (Keeps P) rest _ _ (poll_filter_enabled-Keeps P env to k rest every)
        (λ source rest2.
          split_else_both (Keeps P) rest2 _ _ (poll_filter_enabled-Keeps P env to k source rest2)
            (λ selector param.
              if_both (Keeps P) (str_eq param Names.filter_params_node) _ _
                (poll_filter_params-Keeps P env to k source selector)
                (poll_filter_param-Keeps P env to k source selector param)))

  poll_fields-Keeps : (rest : Bytes) → Keeps P (poll_fields env to rest)
  unfolding poll_fields
  poll_fields-Keeps rest =
      split_else_both (Keeps P) rest _ _ (poll_transform-Keeps P env to k rest every none)
        (λ scene remainder.
          split_else_both (Keeps P) remainder _ _
            (poll_transform-Keeps P env to k scene remainder none)
            (λ item field. poll_transform-Keeps P env to k scene item (some field)))

  poll_objects-Answers : (a : Bytes) → Answers (Keeps P) (poll_objects env to a)
  unfolding poll_objects
  poll_objects-Answers a =
      let Q = Keeps P in
      Answers-orelse Q _ _
        (Answers-under Q a Names.visible_prefix _ (λ rest.
          split_else_both Q rest _ _ (poll_item_flag-Keeps P env to k rest every visible)
            (λ scene item. poll_item_flag-Keeps P env to k scene item visible)))
        (Answers-orelse Q _ _
          (Answers-under Q a Names.locked_prefix _ (λ rest.
            split_else_both Q rest _ _ (poll_item_flag-Keeps P env to k rest every locked)
              (λ scene item. poll_item_flag-Keeps P env to k scene item locked)))
          (Answers-orelse Q _ _
            (Answers-under Q a Names.order_prefix _ (λ rest.
              split_else_both Q rest _ _ (poll_item_order-Keeps P env to k rest every)
                (λ scene item. poll_item_order-Keeps P env to k scene item)))
            (Answers-orelse Q _ _ (Answers-under Q a Names.filter_prefix _ poll_filter-Keeps) (
              Answers-orelse Q _ _ (Answers-under Q a Names.transform_prefix _ poll_fields-Keeps) (
                Answers-orelse Q _ _
                  (Answers-under Q a Names.active_prefix _
                    (λ p. poll_input_state-Keeps P env to k p false))
                  (Answers-under Q a Names.showing_prefix
                    (λ p. done (poll_input_state env to p true))
                    (λ p. poll_input_state-Keeps P env to k p true)))))))

  poll_route-Answers : (a : Bytes) → Answers (Keeps P) (poll_route env to a)
  unfolding poll_route
  poll_route-Answers a =
      let Q = Keeps P in
      Answers-orelse Q (poll_values env to a) _ (poll_values-Answers a) (
        Answers-orelse Q (poll_sources env to a) _ (poll_sources-Answers a) (
          Answers-orelse Q (poll_bare env to a) (poll_objects env to a) (poll_bare-Answers a)
            (poll_objects-Answers a)))

  answered-Keeps : (b : Poll) (u : Ui) → Answers (Keeps P) b → P u → P (answered env to b u).0
  answered-Keeps (done act) u h p = h u p
  answered-Keeps refused u h p = p
  answered-Keeps miss u h p = p

  -- Whatever the replies of a poll keep, holds when the poll closes its batch.
  pub poll_answer-Keeps : (a : Bytes) (u : Ui) → P u → P (answered env to (poll_route env to a) u).0
  poll_answer-Keeps a u p = answered-Keeps (poll_route env to a) u (poll_route-Answers a) p
