-- ===== src/Migration/Started.antt =====
-- The job that migrate_do starts.
use libvirt_cim.Prelude.{
  ℕ, ◌≡◌, refl, sym, ap, ◌∙◌, subst, ◌⊎◌, inl, inr, Bool, true, false, Option, none, some, Bytes,
  Bool-cases, arith, >>=?-inv,
}
use libvirt_cim.Cmpi.{
  Rc, rc_ok, rc_err_failed, rc_err_not_found, rc_err_not_supported, rc_err_invalid_parameter,
}
use libvirt_cim.Host.{Host, Opened, opened, no_connect, open_error}
use libvirt_cim.Migration.{Job, domain_exists, set_infstore_migration_flag}
use libvirt_cim.Migration.Request.{
  get_migration_type, get_migration_uri, Settings, Broker, key_params, dest_uri, remote_of,
  connected_to, values_of, get_msd_values, flagged, job_got, job_made, job_for, migrate_do,
}

type_again :
    (o : Option ℕ) (type : ℕ)
    → get_migration_type o ≡ some type
    → get_migration_type (some type) ≡ some type
unfolding get_migration_type
type_again none type e = ground arith
type_again (some t) type e = ground arith

module _ (h : Host) where
  open h use {World, Conn, Dom, domain_lookup, connect_open}

  -- What the settings of a request to migrate to a host come to: a type and a connection.
  pub record Asked (cn host : Bytes) (s : Settings) (w : World) (type : ℕ) (conn : Conn)
      : Type 0 where
    pub asked : get_migration_type s.migration_type ≡ some type
    pub known : get_migration_type (some type) ≡ some type
    pub params : Option Bytes
    pub keyed : key_params h s ≡ some params
    pub uri : Bytes
    pub made : dest_uri h cn host params (get_migration_uri s.transport_type) ≡ some uri
    pub connects : connect_open false uri w ≡ opened conn

  remote_of-opened :
      (type t : ℕ) (conn : Conn) (o : Opened Conn)
      → (remote_of h type o).1 ≡ some (t, conn)
      → (type ≡ t) × (o ≡ opened conn)
  remote_of-opened type t conn (opened c) e =
      let same : ◌≡◌ {A = ℕ × Conn} (type, c) (t, conn) = cc in
      (ap (λ (x : ℕ × Conn). x.0) same, ap (λ (x : ℕ × Conn). opened x.1) same)
  remote_of-opened type t conn no_connect e = absurd (cc)
  remote_of-opened type t conn open_error e = absurd (cc)

  connected_to-opened :
      (type t : ℕ) (conn : Conn) (o : Option Bytes) (w : World)
      → (connected_to h type o w).1 ≡ some (t, conn)
      → (type ≡ t) × (uri : Bytes) × (o ≡ some uri) × (connect_open false uri w ≡ opened conn)
  connected_to-opened type t conn none w e = absurd (cc)
  connected_to-opened type t conn (some uri) w e =
      let (same, c) = remote_of-opened type t conn (connect_open false uri w) e in
      (same, uri, refl, c)

  values_of-Asked :
      (cn host : Bytes) (s : Settings) (w : World) (o : Option ℕ) (type : ℕ) (conn : Conn)
      → get_migration_type s.migration_type ≡ o
      → (values_of h cn host s o w).1 ≡ some (type, conn)
      → Asked cn host s w type conn
  values_of-Asked cn host s w none type conn a e = absurd (cc)
  values_of-Asked cn host s w (some t) type conn a e =
      let (same, uri, some_uri, c) = connected_to-opened t type conn _ w e in
      let (params, keyed, made) = >>=?-inv (key_params h s) _ uri some_uri in
      record {
        asked = a ∙ ap some same;
        known = type_again s.migration_type type (a ∙ ap some same);
        params = params;
        keyed = keyed;
        uri = uri;
        made = made;
        connects = c;
      }

  get_msd_values-Asked :
      (cn host : Bytes) (s : Settings) (w : World) (rc : Rc) (type : ℕ) (conn : Conn)
      → s.status ≡ rc
      → (get_msd_values h cn host s w).1 ≡ some (type, conn)
      → Asked cn host s w type conn
  unfolding get_msd_values
  get_msd_values-Asked cn host s w rc_ok type conn q e =
      values_of-Asked cn host s w (get_migration_type s.migration_type) type conn refl (rw q at e)
  get_msd_values-Asked cn host s w rc_err_failed type conn q e = absurd (cc (rw q at e))
  get_msd_values-Asked cn host s w rc_err_not_found type conn q e = absurd (cc (rw q at e))
  get_msd_values-Asked cn host s w rc_err_not_supported type conn q e = absurd (cc (rw q at e))
  get_msd_values-Asked cn host s w rc_err_invalid_parameter type conn q e = absurd (cc (rw q at e))

  flag_where :
      (conn : Conn) (domain : Bytes) (w : World) (o : Option Dom)
      → domain_lookup conn domain w ≡ o
      → (set_infstore_migration_flag h conn domain w ≡ some (false, w))
        ⊎ (domain_exists h conn domain w ≡ true)
  unfolding set_infstore_migration_flag domain_exists
  flag_where conn domain w none e = inl (rw (set_infstore_migration_flag, e))
  flag_where conn domain w (some d) e = inr (rw (domain_exists, e))

  set_world :
      (a b : Bool) (w w' : World)
      → ◌≡◌ {A = Option (Bool × World)} (some (a, w)) (some (b, w'))
      → w ≡ w'
  set_world a b w w' e =
      let same : ◌≡◌ {A = Bool × World} (a, w) (b, w') = cc in ap (λ (x : Bool × World). x.1) same

  flagged-same :
      (made job : Job h) (told rc : Rc) (w w' : World) (o : Option (Bool × World))
      → set_infstore_migration_flag h made.conn made.domain w ≡ o
      → flagged h made told o ≡ some ((rc, some job), w')
      → (made ≡ job) × ((w' ≡ w) ⊎ (domain_exists h made.conn made.domain w ≡ true))
  flagged-same made job told rc w w' none f e = absurd (cc)
  flagged-same made job told rc w w' (some (set, w1)) f e =
      let same : ◌≡◌ {A = (Rc × Option (Job h)) × World} ((told, some made), w1)
          ((rc, some job), w') =
        cc in
      let ends = ap (λ (x : (Rc × Option (Job h)) × World). x.1) same in
      let jobs : ◌≡◌ {A = Option (Job h)} (some made) (some job) =
        ap (λ (x : (Rc × Option (Job h)) × World). x.0.1) same in
      (
        cc,
        elim (flag_where made.conn made.domain w (domain_lookup made.conn made.domain w) refl) [
          | inl n ↦ inl (sym ends ∙ set_world set false w1 w (sym f ∙ n))
          | inr there ↦ inr there
        ],
      )

  got-same :
      (made job : Job h) (b : Broker) (rc got : Rc) (w w' : World)
      → b.got ≡ got
      → job_got h made b w ≡ some ((rc, some job), w')
      → (made ≡ job) × ((w' ≡ w) ⊎ (domain_exists h made.conn made.domain w ≡ true))
  got-same made job b rc rc_ok w w' q e = elim (Bool-cases b.has_instance) [
    | inl t ↦ flagged-same made job b.indication rc w w' _ refl (rw (t, q) at e)
    | inr f ↦ absurd (cc (rw f at e))
  ]
  got-same made job b rc rc_err_failed w w' q e = elim (Bool-cases b.has_instance) [
    | inl t ↦ absurd (cc (rw (t, q) at e))
    | inr f ↦ absurd (cc (rw f at e))
  ]
  got-same made job b rc rc_err_not_found w w' q e = elim (Bool-cases b.has_instance) [
    | inl t ↦ absurd (cc (rw (t, q) at e))
    | inr f ↦ absurd (cc (rw f at e))
  ]
  got-same made job b rc rc_err_not_supported w w' q e = elim (Bool-cases b.has_instance) [
    | inl t ↦ absurd (cc (rw (t, q) at e))
    | inr f ↦ absurd (cc (rw f at e))
  ]
  got-same made job b rc rc_err_invalid_parameter w w' q e = elim (Bool-cases b.has_instance) [
    | inl t ↦ absurd (cc (rw (t, q) at e))
    | inr f ↦ absurd (cc (rw f at e))
  ]

  made-same :
      (made job : Job h) (b : Broker) (rc created : Rc) (w w' : World)
      → b.created ≡ created
      → job_made h made b w ≡ some ((rc, some job), w')
      → (made ≡ job) × ((w' ≡ w) ⊎ (domain_exists h made.conn made.domain w ≡ true))
  made-same made job b rc rc_ok w w' q e = got-same made job b rc b.got w w' refl (rw q at e)
  made-same made job b rc rc_err_failed w w' q e = absurd (cc (rw q at e))
  made-same made job b rc rc_err_not_found w w' q e = absurd (cc (rw q at e))
  made-same made job b rc rc_err_not_supported w w' q e = absurd (cc (rw q at e))
  made-same made job b rc rc_err_invalid_parameter w w' q e = absurd (cc (rw q at e))

  for-same :
      (cn domain host : Bytes) (s : Settings) (b : Broker) (rc : Rc) (job : Job h) (w w' : World)
      (r : Rc × Option (ℕ × Conn))
      → get_msd_values h cn host s w ≡ r
      → job_for h cn domain host b r w ≡ some ((rc, some job), w')
      → (job.domain ≡ domain)
        × (job.ref_cn ≡ cn)
        × (job.host ≡ host)
        × Asked cn host s w job.type job.conn
        × ((w' ≡ w) ⊎ (domain_exists h job.conn domain w ≡ true))
  for-same cn domain host s b rc job w w' (msd, none) q e = absurd (cc)
  for-same cn domain host s b rc job w w' (msd, some (type, conn)) q e =
      let asked = get_msd_values-Asked cn host s w s.status type conn refl (ap (λ x. x.1) q) in
      let (same, flag) = made-same _ job b rc b.created w w' refl e in
      subst
        (λ j.
          (j.domain ≡ domain)
          × (j.ref_cn ≡ cn)
          × (j.host ≡ host)
          × Asked cn host s w j.type j.conn
          × ((w' ≡ w) ⊎ (domain_exists h j.conn domain w ≡ true)))
        same (refl, refl, refl, asked, flag)

  -- A job that a request to migrate a domain to a host starts is for that domain and that host, with a type of
  -- migration that the settings name, live if they name none, and a connection that libvirt opened to the URI
  -- that the class, the host and the settings make. Starting it leaves the world as it was, the flag of the
  -- domain included, unless that host has a domain of the name.
  pub migrate_do-Asked :
      (cn domain host : Bytes) (s : Settings) (b : Broker) (rc : Rc) (job : Job h) (w w' : World)
      → migrate_do h cn domain host s b w ≡ some ((rc, some job), w')
      → (job.domain ≡ domain)
        × (job.ref_cn ≡ cn)
        × (job.host ≡ host)
        × Asked cn host s w job.type job.conn
        × ((w' ≡ w) ⊎ (domain_exists h job.conn domain w ≡ true))
  unfolding migrate_do
  migrate_do-Asked cn domain host s b rc job w w' e =
      for-same cn domain host s b rc job w w' (get_msd_values h cn host s w) refl e
