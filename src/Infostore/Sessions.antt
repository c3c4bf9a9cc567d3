-- ===== src/Infostore/Sessions.antt =====
-- Whose values a context holds that opens, and that values last from one session to the next.
use libvirt_cim.Prelude.{
  ◌≡◌, ◌≢◌, refl, ap, ◌∙◌, sym, true, false, none, some, List, [], ◌∷◌, Bytes, strcmp_eq,
  strcmp_eq→≡, if◌then◌else◌, Bool-cases, inl, inr,
}
use libvirt_cim.Host.{Host, absent, xml}
use libvirt_cim.Host.Files.{FileLaws}
use libvirt_cim.Infostore.{
  Ctx, xpath_set_string, dominfo, uuid_key, xpath_query, infostore_get_str, infostore_set_str,
  infostore_open, infostore_close, make_filename, open_domain, set_uuid,
}
use libvirt_cim.Infostore.Opening.{
  set_uuid-inv, open_path-absent, open_path-fail, open_domain-uuid, reopen_named, opened_domain-get,
  open_xml, check_stale, check_fresh, open_fails,
}
use libvirt_cim.Infostore.Keys.{get_str-set_str}

module _ (h : Host) (laws : FileLaws h) where
  open h use {World, Dom, domain_get_uuid, file_content, file_open, file_unlink}

  -- Where the files keep FileLaws, a context that opens holds the UUID of the domain it was opened
  -- for.
  pub open-uuid :
      (d : Dom) (u : Bytes) (w : World) (ctx : Ctx) (w' : World)
      → domain_get_uuid d w ≡ some u
      → infostore_open h d w ≡ some (some ctx, w')
      → infostore_get_str ctx uuid_key ≡ some u
  unfolding infostore_open
  open-uuid d u w ctx w' known e =
      opened_domain-get h laws d u (open_domain h d w) ctx w' (open_domain-uuid h laws d w ∙ known)
        e

  -- writing the UUID that a context holds changes no value
  rewritten :
      (u : Bytes) (ctx : Ctx) (key : Bytes)
      → infostore_get_str ctx uuid_key ≡ some u
      → (if strcmp_eq uuid_key key then some u else infostore_get_str ctx key)
        ≡ infostore_get_str ctx key
  rewritten u ctx key stored = elim (Bool-cases (strcmp_eq uuid_key key)) [
    | inl e ↦ rw e (sym stored ∙ ap (infostore_get_str ctx) (strcmp_eq→≡ uuid_key key e))
    | inr e ↦ rw e refl
  ]

  -- Where the files keep FileLaws, a domain that takes over the name of another starts with no value
  -- of the other's: if the file holds another UUID and can be removed, a context that opens holds
  -- the domain's own UUID and nothing else.
  pub open_stale :
      (d : Dom) (p u s : Bytes) (children : List (Bytes × Bytes)) (w : World) (ctx : Ctx)
      (w' : World)
      → make_filename h d ≡ some p
      → domain_get_uuid d w ≡ some u
      → file_content p w ≡ xml dominfo children
      → xpath_query uuid_key children ≡ some s
      → u ≢ s
      → ((v : World) → file_content p v ≢ absent → (file_unlink p v).0 ≡ true)
      → infostore_open h d w ≡ some (some ctx, w')
      → ctx.children ≡ (uuid_key, u) ∷ []
  unfolding infostore_close infostore_get_str infostore_set_str xpath_set_string
  open_stale d p u s children w ctx w' named known held stored other unlinks e =
      elim (Bool-cases (file_open p w).0) [
        | inr bad ↦ absurd (cc (open_fails h laws d p w named bad, e))
        | inl opens ↦
            let c : Ctx = record { path = p; children = children } in
            let w₁ = infostore_close h c (file_open p w).1 in
            let renewed =
              sym (
                open_xml h laws d p u children w named known opens held
                ∙ check_stale h laws d u s c (file_open p w).1 stored other)
              ∙ e in
            let (c', reopened, same) = set_uuid-inv h laws u _ ctx w' renewed in
            let blank =
              open_path-absent h laws p _ c' w' (sym (reopen_named h laws d p w₁ named) ∙ reopened)
                (laws.unlink_absent p w₁ (
                  unlinks w₁
                    (λ x. cc (laws.write_read p (xml dominfo children) (file_open p w).1, x)))) in
            ap (λ x. x.children) same ∙ ap (xpath_set_string uuid_key u) blank
      ]

  -- Where the files keep FileLaws, values last: what was closed under the UUID and the file name of
  -- a domain opens again, if the file can be opened, and reads the same.
  pub open-close :
      (d : Dom) (u : Bytes) (ctx : Ctx) (w : World)
      → make_filename h d ≡ some ctx.path
      → domain_get_uuid d w ≡ some u
      → infostore_get_str ctx uuid_key ≡ some u
      → (file_open ctx.path (infostore_close h ctx w)).0 ≡ true
      → (c : Ctx) × (w' : World) × (infostore_open h d (infostore_close h ctx w)
          ≡ some (some c, w'))
        × ((key : Bytes) → infostore_get_str c key ≡ infostore_get_str ctx key)
  unfolding set_uuid infostore_close
  open-close d u ctx w named known stored opens =
      let w₁ = infostore_close h ctx w in
      let known₁ = laws.uuid_write d ctx.path _ w ∙ known in
      let held = laws.write_read ctx.path _ w in
      let same_value = λ (key : Bytes). rewritten u ctx key stored in
      (
        infostore_set_str ctx uuid_key u,
        (file_open ctx.path w₁).1,
        open_xml h laws d ctx.path u ctx.children w₁ named known₁ opens held
            ∙ check_fresh h laws d u ctx (file_open ctx.path w₁).1 stored,
        λ key. get_str-set_str ctx uuid_key u key ∙ same_value key,
      )

  -- Where the file holds another domain's UUID and cannot be opened anew, `infostore_open` reads
  -- through NULL.
  pub open_fault :
      (d : Dom) (p u s : Bytes) (children : List (Bytes × Bytes)) (w : World)
      → make_filename h d ≡ some p
      → domain_get_uuid d w ≡ some u
      → (file_open p w).0 ≡ true
      → file_content p w ≡ xml dominfo children
      → xpath_query uuid_key children ≡ some s
      → u ≢ s
      → ((v : World) → file_content p v ≡ absent → (file_open p v).0 ≡ false)
      → ((v : World) → file_content p v ≢ absent → (file_unlink p v).0 ≡ true)
      → infostore_open h d w ≡ none
  unfolding set_uuid infostore_get_str infostore_close
  open_fault d p u s children w named known opens held stored other no_new unlinks =
      let c : Ctx = record { path = p; children = children } in
      let w₁ = infostore_close h c (file_open p w).1 in
      let gone =
        laws.unlink_absent p w₁
          (unlinks w₁ (λ x. cc (laws.write_read p (xml dominfo children) (file_open p w).1, x))) in
      open_xml h laws d p u children w named known opens held
      ∙ check_stale h laws d u s c (file_open p w).1 stored other
      ∙ ap (set_uuid h u) (
          reopen_named h laws d p w₁ named
          ∙ open_path-fail h laws p (file_unlink p w₁).1 (no_new _ gone))
