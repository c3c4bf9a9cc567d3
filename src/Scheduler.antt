-- ===== src/Scheduler.antt =====
-- src/Virt_ComputerSystem.c: the scheduler's parameters of a domain that was started. `calloc` does not
-- fail. A fault is `none`.
use libvirt_cim.Prelude.{
  ℕ, ◌+◌, ◌%◌, ◌^◌, Option, none, some, List, [], ◌∷◌, Bytes, codes, take, ltb, if◌then◌else◌, ◌==◌,
  ◌>>=?◌,
}
use libvirt_cim.Host.{Host, SchedParam}
use libvirt_cim.Infostore.{Ctx, infostore_open, infostore_close, infostore_get_u64}

-- an unsigned parameter keeps 32 bits
uint_param : Bytes → ℕ → SchedParam
uint_param name v = record { field = name; value = v % 2 ^ 32 }

abbrev zeroed : SchedParam
zeroed = record { field = []; value = 0 }

-- Both values go into the first entry.
xen_params : ℕ → ℕ → List SchedParam
unfolding uint_param
xen_params weight limit =
    let with_weight : SchedParam × ℕ =
      if weight == 0 then (zeroed, 0) else (uint_param (codes "weight") weight, 1) in
    let with_limit : SchedParam × ℕ =
      if limit == 0 then with_weight else (uint_param (codes "cap") limit, with_weight.1 + 1) in
    take with_limit.1 (with_limit.0 ∷ zeroed ∷ [])

xen_scheduler_params : Ctx → List SchedParam
unfolding xen_params
xen_scheduler_params ctx =
    xen_params (infostore_get_u64 ctx (codes "weight")) (infostore_get_u64 ctx (codes "limit"))

shares_param : ℕ → List SchedParam
unfolding uint_param
shares_param value = if value == 0 then [] else uint_param (codes "cpu_shares") value ∷ []

lxc_scheduler_params : Ctx → List SchedParam
unfolding shares_param
lxc_scheduler_params ctx = shares_param (infostore_get_u64 ctx (codes "weight"))

-- the parameter is an unsigned long long here
kvm_shares : ℕ → List SchedParam
kvm_shares value =
    if value == 0 then [] else record { field = codes "cpu_shares"; value = value } ∷ []

module _ (h : Host) where
  open h use {
    World, Conn, Dom, connect_get_type, domain_get_connect, domain_set_sched, streqc,
    version_number,
  }

  kvm_scheduler_params : Ctx → List SchedParam
  unfolding kvm_shares
  kvm_scheduler_params ctx =
      if ltb version_number 9000 then kvm_shares (infostore_get_u64 ctx (codes "weight")) else []

  -- the parameters for the type of connection; none for an unknown type
  pub scheduler_params : Bytes → Ctx → List SchedParam
  unfolding xen_scheduler_params lxc_scheduler_params kvm_scheduler_params
  scheduler_params type ctx =
      if streqc type (codes "xen")
      then xen_scheduler_params ctx
      else if streqc type (codes "lxc")
      then lxc_scheduler_params ctx
      else if streqc type (codes "QEMU")
      then kvm_scheduler_params ctx
      else []

  unfoldable pub set_params : Dom → List SchedParam → World → World
  set_params dom [] w = w
  set_params dom (p ∷ ps) w = domain_set_sched dom (p ∷ ps) w

  unfoldable pub params_from : Dom → Conn → Option Ctx × World → World
  unfolding scheduler_params set_params
  params_from dom conn (none, w) = w
  params_from dom conn (some ctx, w) =
      infostore_close h ctx (set_params dom (scheduler_params (connect_get_type conn) ctx) w)

  unfoldable pub with_params : Dom → Option Conn → World → Option World
  with_params dom none w = some w
  with_params dom (some conn) w = infostore_open h dom w >>=? λ r. some (params_from dom conn r)

  unfoldable pub set_scheduler_params : Dom → World → Option World
  set_scheduler_params dom w = with_params dom (domain_get_connect dom) w
