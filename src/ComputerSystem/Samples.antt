-- ===== src/ComputerSystem/Samples.antt =====
-- The state of a running domain of the toy machine.
use libvirt_cim.Prelude.{◌≡◌, refl, ap, ◌∙◌, true, some, ◌>>=?◌}
use libvirt_cim.Host.{LvState, running, absent}
use libvirt_cim.Host.Toy.{Machine, toy}
use libvirt_cim.Infostore.{Ctx, infostore_open, infostore_close}
use libvirt_cim.Infostore.Samples.{machine, own, ctx, opens_own}
use libvirt_cim.ComputerSystem.{
  StateProps, whole, adjust_state_xen, props_from, props_of, with_state, set_state_from_dom,
  state_props, close_if_open,
}
use libvirt_cim.ComputerSystem.Status.{Agrees, set_state_from_dom-Agrees}

abbrev up : Machine
up = machine running (λ p. absent) own

abbrev shown : StateProps
shown = state_props (toy true) tt running (some ctx) up

pub shows :
    (s : LvState) (m m' : Machine) (c : Ctx)
    → adjust_state_xen (toy true) tt m.state ≡ some s
    → infostore_open (toy true) tt m ≡ some (some c, m')
    → set_state_from_dom (toy true) true tt m
      ≡ some (whole (state_props (toy true) tt s (some c) m), infostore_close (toy true) c m')
unfolding set_state_from_dom with_state props_of props_from close_if_open
shows s m m' c adjusted opens =
    ap (λ a. a >>=? props_of (toy true) true tt m) adjusted
    ∙ ap (λ o. o >>=? λ r. some (props_from (toy true) tt s m r)) opens

adjusted_up : adjust_state_xen (toy true) tt running ≡ some running
unfolding adjust_state_xen
adjusted_up = refl

set_state_from_dom-Agrees_example : Agrees shown
set_state_from_dom-Agrees_example =
    set_state_from_dom-Agrees (toy true) true tt up shown (infostore_close (toy true) ctx up)
      (shows running up up ctx adjusted_up (opens_own running (λ p. absent)))
