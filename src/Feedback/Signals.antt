-- ===== src/Feedback/Signals.antt =====
-- The signal callbacks of src/osc-feedback.cpp that report a source or a scene item. A callback's
-- calldata are its arguments, `none` where the calldata do not hold them; `volume` is the pattern of
-- the `float` it is converted to. A source has a name.
use obs_osc.Base.{
  ℕ, Bool, false, List, [], ◌∷◌, ◌++◌, Option, none, some, if◌then◌else◌, Bytes, codes,
}
use obs_osc.Message.Types.{OscArgument, osc_int, osc_flt}
use obs_osc.Message.Build.{osc_build_message}
use obs_osc.Message.Access.{Conversions}
use obs_osc.Server.State.{Server}
use obs_osc.Subscribe.Registry.{Registry}
use obs_osc.Addresses.Names.{active_prefix, showing_prefix}
use obs_osc.Addresses.Routes.{
  mute_for, volume_for, media_state_for, prefixed, visible_for, locked_for, order_for, filter_for,
  transform_for,
}
use obs_osc.Util.Fields.{osc_volume_position, TransformField, osc_transform_fields}
use obs_osc.Obs.Actions.{Handle}
use obs_osc.Obs.Readings.{Reads, Floats}
use obs_osc.Feedback.Send.{osc_feedback_send}
use obs_osc.Feedback.Throttle.{LastSent, throttled}

-- What the feedback reads and changes: the switch of the configuration, the subscriptions, the
-- server, the messages given to websocket peers, and the rate limiter's map.
pub record Sink : Type 0 where
  pub feedback_enabled : Bool
  pub registry : Registry
  pub server : Server
  pub peer_messages : List (ℕ × Bytes)
  pub last_sent : LastSent

abbrev pub to_peers : Bytes → List ℕ → List (ℕ × Bytes)
to_peers buf [] = []
to_peers buf (peer ∷ peers) = (peer, buf) ∷ to_peers buf peers

-- `osc_feedback_send` on the shared state.
unfoldable pub feedback : Bytes → List OscArgument → Sink → Sink
unfolding osc_feedback_send
feedback address args k =
    let (server, peers) = osc_feedback_send k.feedback_enabled k.registry k.server address args in
    record k {
      server = server;
      peer_messages = k.peer_messages ++ to_peers (osc_build_message [] address args) peers;
    }

unfoldable pub limited : ℕ → Bytes → ℕ → Sink → Sink × Bool
unfolding throttled
limited now key ms k =
    let (last_sent, held) = throttled now k.last_sent key ms in
    (record k { last_sent = last_sent }, held)

abbrev pub as_int : Bool → ℕ
as_int b = if b then 1 else 0

unfoldable pub send_bool_feedback : Bytes → ℕ → Sink → Sink
unfolding feedback
send_bool_feedback address value = feedback address (osc_int value ∷ [])

-- A `bool` or `true` that calldata fill in.
abbrev pub or_false : Option Bool → Bool
or_false none = false
or_false (some b) = b

-- An item that is there and has a source.
abbrev pub with_source : Reads → Option Handle → (Handle → Handle → Sink → Sink) → Sink → Sink
with_source r none act k = k
with_source r (some item) act k = elim (r.item_source item) [
  | none ↦ k
  | some item_source ↦ act item item_source k
]

module _ (r : Reads) (source : Handle) where
  unfoldable pub mute_signal_cb : Option Bool → Sink → Sink
  unfolding feedback
  mute_signal_cb muted =
      feedback (mute_for (r.source_name source)) (osc_int (as_int (or_false muted)) ∷ [])

  unfoldable pub volume_signal_cb : Floats → ℕ → Option ℕ → Sink → Sink
  unfolding limited feedback osc_volume_position
  volume_signal_cb floats now none k = k
  volume_signal_cb floats now (some volume) k =
      let name = r.source_name source in
      let (marked, held) = limited now name 33 k in
      if held
      then marked
      else feedback (volume_for name) (osc_flt (osc_volume_position floats volume) ∷ []) marked

  unfoldable pub media_signal_cb : Sink → Sink
  unfolding feedback
  media_signal_cb =
      feedback (media_state_for (r.source_name source)) (osc_int (r.media_state source) ∷ [])

  unfoldable pub activate_signal_cb : Sink → Sink
  unfolding send_bool_feedback
  activate_signal_cb = send_bool_feedback (prefixed active_prefix (r.source_name source)) 1

  unfoldable pub deactivate_signal_cb : Sink → Sink
  unfolding send_bool_feedback
  deactivate_signal_cb = send_bool_feedback (prefixed active_prefix (r.source_name source)) 0

  unfoldable pub show_signal_cb : Sink → Sink
  unfolding send_bool_feedback
  show_signal_cb = send_bool_feedback (prefixed showing_prefix (r.source_name source)) 1

  unfoldable pub hide_signal_cb : Sink → Sink
  unfolding send_bool_feedback
  hide_signal_cb = send_bool_feedback (prefixed showing_prefix (r.source_name source)) 0

-- On the parent that the filter was hooked for.
unfoldable pub filter_enable_signal_cb : Reads → Handle → Option Handle → Option Bool → Sink → Sink
unfolding send_bool_feedback
filter_enable_signal_cb r parent none enabled k = k
filter_enable_signal_cb r parent (some filter) enabled k =
    send_bool_feedback (filter_for (r.source_name parent) (r.source_name filter))
      (as_int (or_false enabled)) k

module _ (r : Reads) (scene_source : Handle) where
  unfoldable pub item_visible_signal_cb : Option Handle → Option Bool → Sink → Sink
  unfolding send_bool_feedback
  item_visible_signal_cb item visible = with_source r item (λ _ item_source.
      send_bool_feedback (visible_for (r.source_name scene_source) (r.source_name item_source))
        (as_int (or_false visible)))

  unfoldable pub item_locked_signal_cb : Option Handle → Option Bool → Sink → Sink
  unfolding send_bool_feedback
  item_locked_signal_cb item locked = with_source r item (λ _ item_source.
      send_bool_feedback (locked_for (r.source_name scene_source) (r.source_name item_source))
        (as_int (or_false locked)))

  unfoldable pub send_fields :
      Conversions → Bytes → Bytes → Handle → List TransformField → Sink → Sink
  unfolding feedback
  send_fields conv scene_name item_name item [] k = k
  send_fields conv scene_name item_name item (f ∷ fields) k =
      send_fields conv scene_name item_name item fields
        (feedback (transform_for scene_name item_name f.name) (osc_flt (f.get conv r item) ∷ []) k)

  unfoldable pub send_item_transform_feedback : Conversions → Bytes → Bytes → Handle → Sink → Sink
  unfolding send_fields
  send_item_transform_feedback conv scene_name item_name item =
      send_fields conv scene_name item_name item osc_transform_fields

  unfoldable pub item_transform_signal_cb : Conversions → ℕ → Option Handle → Sink → Sink
  unfolding limited send_item_transform_feedback
  item_transform_signal_cb conv now item = with_source r item (λ moved item_source k.
      let scene_name = r.source_name scene_source in
      let item_name = r.source_name item_source in
      let (marked, held) = limited now (scene_name ++ (codes "/" ++ item_name)) 100 k in
      if held then marked else send_item_transform_feedback conv scene_name item_name moved marked)

  unfoldable pub reorder_report_cb : Bytes → Handle → Sink → Sink
  unfolding send_bool_feedback
  reorder_report_cb scene_name item = with_source r (some item) (λ placed item_source.
      send_bool_feedback (order_for scene_name (r.source_name item_source)) (r.item_order placed))

  -- The enumeration; its callback always goes on.
  unfoldable pub report_items : Bytes → List Handle → Sink → Sink
  unfolding reorder_report_cb
  report_items scene_name [] k = k
  report_items scene_name (item ∷ items) k =
      report_items scene_name items (reorder_report_cb scene_name item k)

  unfoldable pub scene_reorder_signal_cb : ℕ → Sink → Sink
  unfolding limited report_items
  scene_reorder_signal_cb now k =
      let name = r.source_name scene_source in
      let (marked, held) = limited now name 100 k in
      if held then marked else report_items name (r.items scene_source) marked
