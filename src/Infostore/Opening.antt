-- ===== src/Infostore/Opening.antt =====
-- What `infostore_open` comes to, by what the file holds.
use libvirt_cim.Prelude.{
  ◌≡◌, ◌≢◌, refl, ap, ◌∙◌, sym, true, false, Option, none, some, List, [], Bytes, arith,
  strcmp_eq_refl, Bool-cases, inl, inr,
}
use libvirt_cim.Host.{Host, absent, xml}
use libvirt_cim.Host.Files.{FileLaws}
use libvirt_cim.Infostore.{
  Ctx, dominfo, uuid_key, infostore_get_str, infostore_set_str, infostore_open, infostore_close,
  delete_and_open, make_filename, open_domain, open_path, open_at, reopen_at, with_uuid,
  opened_domain, check_uuid, is_stale, set_uuid, with_root, read_document, generic_infostore_open,
}
use libvirt_cim.Infostore.Keys.{get_str-set_str}

module _ (h : Host) (laws : FileLaws h) where
  open h use {World, Dom, domain_get_uuid, file_content, file_open, file_unlink, streq}

  pub set_uuid-inv :
      (u : Bytes) (r : Option Ctx × World) (ctx : Ctx) (w : World)
      → set_uuid h u r ≡ some (some ctx, w)
      → (c : Ctx) × (r ≡ (some c, w)) × (ctx ≡ infostore_set_str c uuid_key u)
  unfolding set_uuid
  set_uuid-inv u (none, w') ctx w e = absurd (cc)
  set_uuid-inv u (some c, w') ctx w e = (c, cc, cc)

  -- the context of a path whose file is missing holds nothing
  pub open_path-absent :
      (p : Bytes) (w : World) (ctx : Ctx) (w' : World)
      → open_path h p w ≡ (some ctx, w')
      → file_content p w ≡ absent
      → ctx.children ≡ []
  unfolding open_path with_root generic_infostore_open read_document
  open_path-absent p w ctx w' e gone = elim (Bool-cases (file_open p w).0) [
    | inl ok ↦ ground (arith, laws.open_creates p w ok gone)
    | inr bad ↦ ground arith
  ]

  -- the context of a path whose file holds a document of this program
  pub open_path-xml :
      (p : Bytes) (w : World) (children : List (Bytes × Bytes))
      → (file_open p w).0 ≡ true
      → file_content p w ≡ xml dominfo children
      → open_path h p w ≡ (some (record { path = p; children = children }), (file_open p w).1)
  unfolding open_path with_root generic_infostore_open read_document
  open_path-xml p w children ok held =
      let kept = laws.open_keeps p w (λ e. cc (held, e)) in
      ground (arith, kept, held, strcmp_eq_refl dominfo)

  pub open_at-uuid :
      (d : Dom) (o : Option Bytes) (w : World)
      → domain_get_uuid d (open_at h o w).1 ≡ domain_get_uuid d w
  unfolding open_at open_path generic_infostore_open
  open_at-uuid d none w = refl
  open_at-uuid d (some p) w = laws.uuid_open d p w

  pub open_domain-uuid :
      (d : Dom) (w : World) → domain_get_uuid d (open_domain h d w).1 ≡ domain_get_uuid d w
  unfolding open_domain
  open_domain-uuid d w = open_at-uuid d (make_filename h d) w

  pub open_named :
      (d : Dom) (p : Bytes) (w : World)
      → make_filename h d ≡ some p
      → open_domain h d w ≡ open_path h p w
  unfolding open_domain
  open_named d p w named = ap (λ o. open_at h o w) named

  pub reopen_named :
      (d : Dom) (p : Bytes) (w : World)
      → make_filename h d ≡ some p
      → delete_and_open h d w ≡ open_path h p (file_unlink p w).1
  unfolding delete_and_open
  reopen_named d p w named =
      ap (λ o. reopen_at h d o w) named ∙ open_named d p (file_unlink p w).1 named

  pub set_uuid-get :
      (u : Bytes) (r : Option Ctx × World) (ctx : Ctx) (w : World)
      → set_uuid h u r ≡ some (some ctx, w)
      → infostore_get_str ctx uuid_key ≡ some u
  set_uuid-get u r ctx w e =
      let (c, _, same) = set_uuid-inv u r ctx w e in
      ap (λ x. infostore_get_str x uuid_key) same
      ∙ get_str-set_str c uuid_key u uuid_key
      ∙ (rw (strcmp_eq_refl uuid_key) refl)

  pub opened_domain-get :
      (d : Dom) (u : Bytes) (r : Option Ctx × World) (ctx : Ctx) (w' : World)
      → domain_get_uuid d r.1 ≡ some u
      → opened_domain h d r ≡ some (some ctx, w')
      → infostore_get_str ctx uuid_key ≡ some u
  unfolding opened_domain check_uuid
  opened_domain-get d u (none, w) ctx w' known e = absurd (cc)
  opened_domain-get d u (some c, w) ctx w' known e =
      set_uuid-get u _ ctx w' (sym (ap (λ o. with_uuid h d o c w) known) ∙ e)

  -- what opening a file with a document of this program comes to
  pub open_xml :
      (d : Dom) (p u : Bytes) (children : List (Bytes × Bytes)) (w : World)
      → make_filename h d ≡ some p
      → domain_get_uuid d w ≡ some u
      → (file_open p w).0 ≡ true
      → file_content p w ≡ xml dominfo children
      → infostore_open h d w
        ≡ check_uuid h d u (record { path = p; children = children }) (file_open p w).1
  unfolding infostore_open opened_domain
  open_xml d p u children w named known ok held =
      let c : Ctx = record { path = p; children = children } in
      ap (opened_domain h d) (open_named d p w named ∙ open_path-xml p w children ok held)
      ∙ ap (λ o. with_uuid h d o c (file_open p w).1) (laws.uuid_open d p w ∙ known)

  pub check_stale :
      (d : Dom) (u s : Bytes) (c : Ctx) (w : World)
      → infostore_get_str c uuid_key ≡ some s
      → u ≢ s
      → check_uuid h d u c w ≡ set_uuid h u (delete_and_open h d (infostore_close h c w))
  unfolding check_uuid is_stale
  check_stale d u s c w stored other = ground (arith, stored, laws.streq_iff u s)

  pub check_fresh :
      (d : Dom) (u : Bytes) (c : Ctx) (w : World)
      → infostore_get_str c uuid_key ≡ some u
      → check_uuid h d u c w ≡ set_uuid h u (some c, w)
  unfolding check_uuid is_stale
  check_fresh d u c w stored = ground (arith, stored, laws.streq_iff u u)

  pub open_path-fail :
      (p : Bytes) (w : World)
      → (file_open p w).0 ≡ false
      → open_path h p w ≡ (none, (file_open p w).1)
  unfolding open_path with_root generic_infostore_open
  open_path-fail p w bad = ground arith

  -- a named file that does not open gives no context
  pub open_fails :
      (d : Dom) (p : Bytes) (w : World)
      → make_filename h d ≡ some p
      → (file_open p w).0 ≡ false
      → infostore_open h d w ≡ some (none, (file_open p w).1)
  unfolding infostore_open opened_domain
  open_fails d p w named bad =
      ap (opened_domain h d) (open_named d p w named ∙ open_path-fail p w bad)
