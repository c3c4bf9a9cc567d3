-- ===== src/Infostore/Frame.antt =====
-- What opening a context leaves as it was: all that the calls on single files leave.
use libvirt_cim.Prelude.{◌≡◌, refl, ap, ◌∙◌, Option, none, some, Bytes, Bool-cases, inl, inr}
use libvirt_cim.Host.{Host, Content}
use libvirt_cim.Infostore.{
  Ctx, infostore_open, infostore_close, delete_and_open, make_filename, open_domain, open_path,
  open_at, reopen_at, with_uuid, opened_domain, check_uuid, set_uuid, generic_infostore_open,
  is_stale, infostore_get_str, uuid_key,
}

-- an observation that opening, writing and removing a file keep
pub record Kept (h : Host) (A : Type 0) (f : h.World → A) : Type 0 where
  pub by_open : (p : Bytes) (w : h.World) → f (h.file_open p w).1 ≡ f w
  pub by_write : (p : Bytes) (c : Content) (w : h.World) → f (h.file_write p c w) ≡ f w
  pub by_unlink : (p : Bytes) (w : h.World) → f (h.file_unlink p w).1 ≡ f w

module _ (h : Host) (A : Type 0) (f : h.World → A) (kept : Kept h A f) where
  open h use {World, Dom, domain_get_uuid}

  same_world : (q r : Option Ctx × World) → some q ≡ some r → f r.1 ≡ f q.1
  same_world q r e = let same : r ≡ q = cc in ap (λ x. f x.1) same

  open_at-Kept : (o : Option Bytes) (w : World) → f (open_at h o w).1 ≡ f w
  unfolding open_at open_path generic_infostore_open
  open_at-Kept none w = refl
  open_at-Kept (some p) w = kept.by_open p w

  open_domain-Kept : (d : Dom) (w : World) → f (open_domain h d w).1 ≡ f w
  unfolding open_domain
  open_domain-Kept d w = open_at-Kept (make_filename h d) w

  pub infostore_close-Kept : (c : Ctx) (w : World) → f (infostore_close h c w) ≡ f w
  unfolding infostore_close
  infostore_close-Kept c w = kept.by_write c.path _ w

  reopen_at-Kept : (d : Dom) (o : Option Bytes) (w : World) → f (reopen_at h d o w).1 ≡ f w
  unfolding reopen_at
  reopen_at-Kept d none w = refl
  reopen_at-Kept d (some p) w = open_domain-Kept d (h.file_unlink p w).1 ∙ kept.by_unlink p w

  delete_and_open-Kept : (d : Dom) (w : World) → f (delete_and_open h d w).1 ≡ f w
  unfolding delete_and_open
  delete_and_open-Kept d w = reopen_at-Kept d (make_filename h d) w

  renewed-Kept :
      (d : Dom) (c : Ctx) (w : World) → f (delete_and_open h d (infostore_close h c w)).1 ≡ f w
  renewed-Kept d c w = delete_and_open-Kept d (infostore_close h c w) ∙ infostore_close-Kept c w

  set_uuid-Kept :
      (u : Bytes) (r r' : Option Ctx × World) → set_uuid h u r ≡ some r' → f r'.1 ≡ f r.1
  unfolding set_uuid
  set_uuid-Kept u (none, w) r' e = absurd (cc)
  set_uuid-Kept u (some c, w) r' e = same_world _ r' e

  check_uuid-Kept :
      (d : Dom) (u : Bytes) (c : Ctx) (w : World) (r : Option Ctx × World)
      → check_uuid h d u c w ≡ some r
      → f r.1 ≡ f w
  unfolding check_uuid
  check_uuid-Kept d u c w r e = elim (Bool-cases (is_stale h u (infostore_get_str c uuid_key))) [
    | inl t ↦ set_uuid-Kept u _ r (rw t at e) ∙ renewed-Kept d c w
    | inr t ↦ set_uuid-Kept u (some c, w) r (rw t at e)
  ]

  with_uuid-Kept :
      (d : Dom) (o : Option Bytes) (c : Ctx) (w : World) (r : Option Ctx × World)
      → with_uuid h d o c w ≡ some r
      → f r.1 ≡ f w
  unfolding with_uuid
  with_uuid-Kept d none c w r e = same_world _ r e ∙ renewed-Kept d c w
  with_uuid-Kept d (some u) c w r e = check_uuid-Kept d u c w r e

  opened_domain-Kept :
      (d : Dom) (q r : Option Ctx × World) → opened_domain h d q ≡ some r → f r.1 ≡ f q.1
  unfolding opened_domain
  opened_domain-Kept d (none, w) r e = same_world _ r e
  opened_domain-Kept d (some c, w) r e = with_uuid-Kept d (domain_get_uuid d w) c w r e

  pub infostore_open-Kept :
      (d : Dom) (w : World) (r : Option Ctx × World) → infostore_open h d w ≡ some r → f r.1 ≡ f w
  unfolding infostore_open
  infostore_open-Kept d w r e = opened_domain-Kept d (open_domain h d w) r e ∙ open_domain-Kept d w
