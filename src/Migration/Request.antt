-- ===== src/Migration/Request.antt =====
-- The settings of a request to migrate, and migrate_do, which starts the job.
use libvirt_cim.Prelude.{
  ℕ, ◌==◌, leb, Bool, false, ◌&&◌, Option, none, some, [], ◌∷◌, ◌++◌, Bytes, codes, if◌then◌else◌,
  ◌>>=?◌,
}
use libvirt_cim.Cmpi.{Rc, rc_ok, rc_err_failed}
use libvirt_cim.Host.{Host, Opened, opened, no_connect, open_error}
use libvirt_cim.Migration.{
  cim_migrate_other, cim_migrate_live, cim_migrate_restart, Job, set_infstore_migration_flag,
}

-- MigrationType, live if it is not there
unfoldable pub get_migration_type : Option ℕ → Option ℕ
get_migration_type none = some cim_migrate_live
get_migration_type (some type) =
    if leb cim_migrate_other type && leb type cim_migrate_restart then some type else none

-- TransportType, ssh if it is not there
abbrev pub get_migration_uri : Option ℕ → ℕ
get_migration_uri none = 2
get_migration_uri (some uri) = uri

-- the transport, and a parameter of the URI
abbrev pub transport_of : ℕ → Option (Bytes × Bytes)
transport_of transport =
    if transport == 2
    then some (codes "ssh", [])
    else if transport == 3
    then some (codes "tls", codes "?no_verify=1")
    else if transport == 4
    then some (codes "tls", [])
    else if transport == 32768
    then some (codes "unix", [])
    else if transport == 5
    then some (codes "tcp", [])
    else none

abbrev pub with_param : Bytes → Bytes → Bytes
with_param uri [] = uri
with_param uri (c ∷ param) = uri ++ (b'/' ∷ c ∷ param)

-- a `?` in front, unless the parameter has it
abbrev pub with_dest_params : Bytes → Option Bytes → Bytes → Bytes
with_dest_params param none uri = uri
with_dest_params [] (some dest_params) uri = uri ++ (b'?' ∷ dest_params)
with_dest_params (c ∷ param) (some dest_params) uri = uri ++ dest_params

-- What get_msd_values reads: the status and the properties of the settings, whether a special ssh key is asked
-- for, and the key of libvirt-cim.conf.
pub record Settings : Type 0 where
  pub status : Rc
  pub migration_type : Option ℕ
  pub transport_type : Option ℕ
  pub without_root_key : Bool
  pub ssh_tmp_key : Option Bytes

-- The broker's answers: the status of migrate_create_job_instance, the instance of the job and its status, and
-- the status of prepare_indication, which is the one that is returned.
pub record Broker : Type 0 where
  pub created : Rc
  pub has_instance : Bool
  pub got : Rc
  pub indication : Rc

module _ (h : Host) where
  open h use {World, Conn, connect_open, starts_with}

  abbrev pub uri_prefix : Bytes → Option (Bytes × Bytes)
  uri_prefix cn =
      if starts_with cn (codes "Xen")
      then some (codes "xen", [])
      else if starts_with cn (codes "KVM")
      then some (codes "qemu", codes "/system")
      else none

  unfoldable pub dest_uri : Bytes → Bytes → Option Bytes → ℕ → Option Bytes
  dest_uri cn dest dest_params transport = uri_prefix cn >>=? λ p. transport_of transport >>=? λ t.
      some (
        with_dest_params t.1 dest_params
          (with_param (p.0 ++ (b'+' ∷ t.0 ++ (codes "://" ++ (dest ++ p.1)))) t.1))

  abbrev pub key_params : Settings → Option (Option Bytes)
  key_params s =
      if s.without_root_key
      then (s.ssh_tmp_key >>=? λ key. some (some (codes "keyfile=" ++ key)))
      else some none

  abbrev pub remote_of : ℕ → Opened Conn → Rc × Option (ℕ × Conn)
  remote_of type (opened conn) = (rc_ok, some (type, conn))
  remote_of type no_connect = (rc_err_failed, none)
  remote_of type open_error = (rc_err_failed, none)

  abbrev pub connected_to : ℕ → Option Bytes → World → Rc × Option (ℕ × Conn)
  connected_to type none w = (rc_err_failed, none)
  connected_to type (some uri) w = remote_of type (connect_open false uri w)

  abbrev pub values_of : Bytes → Bytes → Settings → Option ℕ → World → Rc × Option (ℕ × Conn)
  values_of cn destination s none w = (rc_err_failed, none)
  values_of cn destination s (some type) w =
      connected_to type
        (key_params s >>=? λ dest_params.
          dest_uri cn destination dest_params (get_migration_uri s.transport_type))
        w

  -- the type, and the connection to the host that is asked for
  unfoldable pub get_msd_values : Bytes → Bytes → Settings → World → Rc × Option (ℕ × Conn)
  get_msd_values cn destination s w = elim s.status [
    | rc_ok ↦ values_of cn destination s (get_migration_type s.migration_type) w
    | rc ↦ (rc, none)
  ]

  -- What the method gives: the status, whether the job was started, and the job.
  abbrev pub Outcome : Type 0
  Outcome = Option ((Rc × Option (Job h)) × World)

  abbrev pub flagged : Job h → Rc → Option (Bool × World) → Outcome
  flagged job rc none = none
  flagged job rc (some (set, w)) = some ((rc, some job), w)

  abbrev pub job_got : Job h → Broker → World → Outcome
  job_got job b w =
      if b.has_instance
      then elim b.got [
        | rc_ok ↦ flagged job b.indication (set_infstore_migration_flag h job.conn job.domain w)
        | rc ↦ some ((rc, none), w)
      ]
      else some ((b.got, none), w)

  abbrev pub job_made : Job h → Broker → World → Outcome
  job_made job b w = elim b.created [ rc_ok ↦ job_got job b w | rc ↦ some ((rc, none), w) ]

  abbrev pub job_for : Bytes → Bytes → Bytes → Broker → Rc × Option (ℕ × Conn) → World → Outcome
  job_for cn domain host b (rc, none) w = some ((rc, none), w)
  job_for cn domain host b (rc, some (type, conn)) w =
      job_made (record { domain = domain; ref_cn = cn; host = host; type = type; conn = conn }) b w

  unfoldable pub migrate_do : Bytes → Bytes → Bytes → Settings → Broker → World → Outcome
  migrate_do cn domain host s b w = job_for cn domain host b (get_msd_values cn host s w) w
