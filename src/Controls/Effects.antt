-- ===== src/Controls/Effects.antt =====
-- What a message touches: OBS, its clients, or the registry.
use obs_osc.Base.{
  true, false, not, ◌||◌, if_both, ◌≡◌, refl, ◌⊎◌, str_eq_iff, str_eq, is_empty, arith, Bool-cases,
  inl, inr,
}
use obs_osc.Net.{Endpoint}
use obs_osc.Message.Types.{OscMessage}
use obs_osc.Addresses.Names
use obs_osc.Addresses.Routes.{has_prefix}
use obs_osc.Subscribe.Fanout.{osc_handle_subscription}
use obs_osc.Obs.Readings.{Env}
use obs_osc.Controls.Poll.{poll_dispatch}
use obs_osc.Controls.Polls.{poll_dispatch_reads}
use obs_osc.Controls.Commands.{run_command-Keeps}
use obs_osc.Controls.Dispatch.{Desk, osc_dispatch_command}

-- A message with arguments never puts a datagram on its way, whatever its address.
pub osc_dispatch_command_silent :
    (env : Env) (msg : OscMessage) (reply_to : Endpoint) (d : Desk)
    → is_empty msg.args ≡ false
    → (osc_dispatch_command env msg reply_to d).ui.out ≡ d.ui.out
unfolding osc_dispatch_command
osc_dispatch_command_silent env msg reply_to d h =
    let Same : Desk → Type 0 = λ e. e.ui.out ≡ d.ui.out in
    if_both Same (not (has_prefix msg.address Names.root)) _ _ refl (
      if_both Same (str_eq msg.address Names.subscribe || str_eq msg.address Names.unsubscribe) _ _
        refl (rw h (run_command-Keeps (λ v. v.out ≡ d.ui.out) env (λ action v g. g) msg d.ui refl)))

-- A message with no arguments that the polls answer requests no change of OBS; neither does a
-- subscription, nor a message whose address does not begin with a slash.
pub osc_dispatch_command_reads :
    (env : Env) (msg : OscMessage) (reply_to : Endpoint) (d : Desk)
    → is_empty msg.args ≡ true
    → (poll_dispatch env reply_to msg.address d.ui).1 ≡ true
    → (osc_dispatch_command env msg reply_to d).ui.calls ≡ d.ui.calls
unfolding osc_dispatch_command
osc_dispatch_command_reads env msg reply_to d h answered =
    let Same : Desk → Type 0 = λ e. e.ui.calls ≡ d.ui.calls in
    if_both Same (not (has_prefix msg.address Names.root)) _ _ refl (
      if_both Same (str_eq msg.address Names.subscribe || str_eq msg.address Names.unsubscribe) _ _
        refl (rw h (rw answered (poll_dispatch_reads env reply_to msg.address d.ui))))

-- A rooted message to one of the two subscription addresses goes to the registry, and changes
-- nothing else; no other message changes the registry.
pub osc_dispatch_command_registry :
    (env : Env) (msg : OscMessage) (reply_to : Endpoint) (d : Desk)
    → ((osc_dispatch_command env msg reply_to d).registry ≡ d.registry)
      ⊎ (((msg.address ≡ Names.subscribe) ⊎ (msg.address ≡ Names.unsubscribe))
          × (osc_dispatch_command env msg reply_to d ≡ record d {
            registry =
                osc_handle_subscription env.conv d.registry msg reply_to
                  (str_eq msg.address Names.unsubscribe);
          }))
unfolding osc_dispatch_command
osc_dispatch_command_registry env msg reply_to d =
    let Same : Desk → Type 0 = λ e. e.registry ≡ d.registry in
    elim (Bool-cases (has_prefix msg.address Names.root)) [
      | inr foreign ↦ inl (rw foreign refl)
      | inl rooted ↦
          elim (Bool-cases
            (str_eq msg.address Names.subscribe || str_eq msg.address Names.unsubscribe)) [
              | inl own ↦ inr (either own, rw rooted (rw own refl))
              | inr other ↦ inl (
                  rw rooted (
                    rw other (
                      if_both Same (not (is_empty msg.args)) _ _ refl (
                        if_both Same (poll_dispatch env reply_to msg.address d.ui).1 _ _ refl
                          refl))))
            ]
    ]
  where
    either :
        (str_eq msg.address Names.subscribe || str_eq msg.address Names.unsubscribe) ≡ true
        → (msg.address ≡ Names.subscribe) ⊎ (msg.address ≡ Names.unsubscribe)
    either h = elim (Bool-cases (str_eq msg.address Names.subscribe)) [
      | inl e ↦ inl ((str_eq_iff msg.address Names.subscribe).0 e)
      | inr e ↦ inr ((str_eq_iff msg.address Names.unsubscribe).0 (ground (arith, e)))
    ]
