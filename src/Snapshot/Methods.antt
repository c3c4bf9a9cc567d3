-- ===== src/Snapshot/Methods.antt =====
-- Which job a method starts, and what it reports.
use libvirt_cim.Prelude.{
  ℕ, ◌≡◌, refl, Bool, true, false, not, Option, none, some, Bytes, ◌==◌, ==→≡, if◌then◌else◌,
  Bool-cases, inl, inr, ◌⊎◌,
}
use libvirt_cim.Cmpi.{Rc, rc_err_invalid_parameter}
use libvirt_cim.Vsss.{vsss_get_save_path}
use libvirt_cim.Snapshot.{
  SnapContext, new_context, start_snapshot_job, create_with_system, create_snapshot, reject,
  vsss_snapshot_mem, vsss_snapshot_memt,
}

-- the job of a type that saves
job_of_type :
    (cn n : Bytes) (type : ℕ) (job : Bool) (vssd : Rc) (ctx : SnapContext)
    → (start_snapshot_job cn n type job vssd).1 ≡ some ctx
    → (job ≡ true) × (ctx ≡ new_context n cn (not (type == 0)) (not (type == vsss_snapshot_memt)))
unfolding start_snapshot_job
job_of_type cn n type true vssd ctx e = (refl, cc)
job_of_type cn n type false vssd ctx e = absurd (cc)

-- the job that was made starts, for the domain that was named
abbrev pub Saves : Bytes → ℕ → Bytes → SnapContext → Type 0
Saves cn type n ctx =
    (ctx.domain ≡ n)
    × (ctx.ref_cn ≡ cn)
    × (ctx.save_path ≡ vsss_get_save_path n)
    × (ctx.save ≡ true)
    × (((type ≡ vsss_snapshot_mem) × (ctx.restore ≡ true))
        ⊎ ((type ≡ vsss_snapshot_memt) × (ctx.restore ≡ false)))

new_context-Saves :
    (cn n : Bytes) (type : ℕ) (ctx : SnapContext)
    → (type ≡ vsss_snapshot_mem) ⊎ (type ≡ vsss_snapshot_memt)
    → ctx ≡ new_context n cn (not (type == 0)) (not (type == vsss_snapshot_memt))
    → Saves cn type n ctx
unfolding new_context
new_context-Saves cn n type ctx (inl t) e =
    let same = rw t at e in rw same (refl, refl, refl, refl, inl (t, refl))
new_context-Saves cn n type ctx (inr t) e =
    let same = rw t at e in rw same (refl, refl, refl, refl, inr (t, refl))

with_system-started :
    (cn : Bytes) (type : ℕ) (settings : Bool) (name : Option Bytes) (job : Bool) (vssd : Rc)
    (ctx : SnapContext)
    → (create_with_system cn type settings name job vssd).started ≡ some ctx
    → (n : Bytes) × (settings ≡ true)
      × (name ≡ some n)
      × (job ≡ true)
      × (ctx ≡ new_context n cn (not (type == 0)) (not (type == vsss_snapshot_memt)))
unfolding create_with_system
with_system-started cn type false name job vssd ctx e = absurd (cc)
with_system-started cn type true none job vssd ctx e = absurd (cc)
with_system-started cn type true (some n) job vssd ctx e =
    let started = job_of_type cn n type job vssd ctx e in (n, refl, refl, started.0, started.1)

-- what holds of the arguments and the context where a job of a supported type was started
abbrev Started : Bytes → ℕ → Bool → Bool → Option Bytes → Bool → SnapContext → Type 0
Started cn type system settings name job ctx =
    (t : ℕ) × (n : Bytes) × (some type ≡ some t)
    × (system ≡ true)
    × (settings ≡ true)
    × (name ≡ some n)
    × (job ≡ true)
    × Saves cn t n ctx

of_supported :
    (cn : Bytes) (t : ℕ) (system settings : Bool) (name : Option Bytes) (job : Bool) (vssd : Rc)
    (ctx : SnapContext)
    → (t ≡ vsss_snapshot_mem) ⊎ (t ≡ vsss_snapshot_memt)
    → (if system
        then create_with_system cn t settings name job vssd
        else reject rc_err_invalid_parameter).started
      ≡ some ctx
    → Started cn t system settings name job ctx
of_supported cn t false settings name job vssd ctx a e = absurd (cc)
of_supported cn t true settings name job vssd ctx a e =
    let (n, settings', name', made, same) = with_system-started cn t settings name job vssd ctx e in
    (t, n, refl, refl, settings', name', made, new_context-Saves cn n t ctx a same)

-- A job that `create_snapshot` starts saves the domain that the client named, to that domain's image; it
-- restores it just if the type is MEM, and the type is MEM or MEMT; every argument was given, and the job was made.
pub create_snapshot-started :
    (cn : Bytes) (type : Option ℕ) (system settings : Bool) (name : Option Bytes) (job : Bool)
    (vssd : Rc) (ctx : SnapContext)
    → (create_snapshot cn type system settings name job vssd).started ≡ some ctx
    → (t : ℕ) × (n : Bytes) × (type ≡ some t)
      × (system ≡ true)
      × (settings ≡ true)
      × (name ≡ some n)
      × (job ≡ true)
      × Saves cn t n ctx
unfolding create_snapshot
create_snapshot-started cn none system settings name job vssd ctx e = absurd (cc)
create_snapshot-started cn (some t) system settings name job vssd ctx e =
    elim (Bool-cases (t == vsss_snapshot_mem)) [
      | inl m ↦
          of_supported cn t system settings name job vssd ctx (inl (==→≡ t vsss_snapshot_mem m))
            (rw m at e)
      | inr m ↦ elim (Bool-cases (t == vsss_snapshot_memt)) [
        | inl k ↦
            of_supported cn t system settings name job vssd ctx (inr (==→≡ t vsss_snapshot_memt k))
              (rw k at (rw m at e))
        | inr k ↦ absurd (cc (rw k at (rw m at e)))
      ]
    ]
