-- ===== src/StateChange/Recorded.antt =====
-- That the requested state is shown again.
use libvirt_cim.Prelude.{
  ℕ, ◌<◌, ◌^◌, ◌≡◌, ap, ◌∙◌, true, some, Option, Bytes, codes, arith, strcmp_eq, >>=?-inv, Bool,
}
use libvirt_cim.Host.{Host, LvState}
use libvirt_cim.Host.Files.{FileLaws}
use libvirt_cim.Infostore.{
  Ctx, uuid_key, infostore_open, infostore_close, infostore_get_str, infostore_get_u64,
  infostore_set_u64, make_filename, infostore_set_str,
}
use libvirt_cim.Infostore.Frame.{Kept, infostore_open-Kept}
use libvirt_cim.Infostore.Keys.{get_str-set_str, get_u64-set_u64, same_number}
use libvirt_cim.Infostore.Sessions.{open-uuid, open-close}
use libvirt_cim.ComputerSystem.{StateProps, whole, set_state_from_dom, state_props}
use libvirt_cim.ComputerSystem.Status.{set_state_from_dom-inv, requested_state_of}
use libvirt_cim.StateChange.{record_request, store_request}

abbrev reqstate : Bytes
reqstate = codes "reqstate"

keeps_uuid :
    (c : Ctx) (n : ℕ)
    → infostore_get_str (infostore_set_u64 c reqstate n) uuid_key ≡ infostore_get_str c uuid_key
unfolding infostore_set_u64 strcmp_eq
keeps_uuid c n = get_str-set_str c reqstate _ uuid_key

number_set :
    (c : Ctx) (n : ℕ) → n < 2 ^ 16 → infostore_get_u64 (infostore_set_u64 c reqstate n) reqstate ≡ n
unfolding strcmp_eq
number_set c n small = get_u64-set_u64 c reqstate n reqstate (omega arith)

module _ (h : Host) (laws : FileLaws h) where
  open h use {World, Dom, domain_get_uuid, file_open}

  uuid-Kept : (d : Dom) → Kept h (Option Bytes) (domain_get_uuid d)
  uuid-Kept d = record {
    by_open = laws.uuid_open d;
    by_write = laws.uuid_write d;
    by_unlink = laws.uuid_unlink d;
  }

  shown_request :
      (request : ℕ) (c c' : Ctx) (s : LvState) (d : Dom) (w : World)
      → request < 2 ^ 16
      → infostore_get_str c' reqstate
        ≡ infostore_get_str (infostore_set_u64 c reqstate request) reqstate
      → (state_props h d s (some c') w).requested_state ≡ request
  shown_request request c c' s d w small e =
      let known = same_number c' _ reqstate e ∙ number_set c request small in
      omega (arith, known, requested_state_of h d s c' w)

  -- Where the files keep FileLaws, a request below 2 ^ 16 that is recorded in the file of the
  -- domain, which opens and has the name that the domain gives, is the RequestedState that is shown
  -- when the system is looked at next, if that file can be opened again.
  pub record_request-shown :
      (request : ℕ) (d : Dom) (u : Bytes) (c : Ctx) (w w₁ w' w'' : World) (b : Bool)
      (p : StateProps)
      → request < 2 ^ 16
      → domain_get_uuid d w ≡ some u
      → infostore_open h d w ≡ some (some c, w₁)
      → make_filename h d ≡ some c.path
      → ((v : World) → (file_open c.path v).0 ≡ true)
      → record_request h request d w ≡ some w'
      → set_state_from_dom h b d w' ≡ some (whole p, w'')
      → p.requested_state ≡ request
  unfolding record_request store_request infostore_set_u64 infostore_set_str
  record_request-shown request d u c w w₁ w' w'' b p small known opens named opening e shown =
      let c₁ = infostore_set_u64 c reqstate request in
      let closed : w' ≡ infostore_close h c₁ w₁ =
        let (r, found, made) =
          >>=?-inv (infostore_open h d w) (λ r. some (store_request h request r)) w' e in
        let same : r ≡ (some c, w₁) = cc in
        let stored : w' ≡ store_request h request r = cc in
        stored ∙ ap (store_request h request) same in
      let known₁ =
        infostore_open-Kept h _ (domain_get_uuid d) (uuid-Kept d) d w (some c, w₁) opens ∙ known in
      let own = keeps_uuid c request ∙ open-uuid h laws d u w c w₁ known opens in
      let (c₂, w₂, reopens, values) = open-close h laws d u c₁ w₁ named known₁ own (opening _) in
      let (info, s, r, _, _, opened, same, _) = set_state_from_dom-inv h b d w' p w'' shown in
      let context : r.0 ≡ some c₂ =
        let target : Option Ctx × World = (some c₂, w₂) in
        let same : r ≡ target = cc (ap (infostore_open h d) closed) in ap (λ x. x.0) same in
      ap (λ x. x.requested_state) same
      ∙ ap (λ o. (state_props h d s o w').requested_state) context
      ∙ shown_request request c c₂ s d w' small (values reqstate)
