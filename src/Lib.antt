-- ===== src/Lib.antt =====
-- Verification of libvirt-cim, the CIM providers for domains that libvirt manages.
--
-- The providers (src/) answer the requests of a CIM broker: they look at domains through libvirt and
-- change them. libxkutil holds what they share. A request names a class and a domain; the class
-- name chooses the hypervisor (MiscUtil), libvirt gives the domain, a provider reads or changes its
-- state (ComputerSystem, StateChange) or saves and restores it (Snapshot), and what has to last from one
-- request to the next stands in an XML file of the domain (Infostore). Network filters (AclFilter) and
-- devices (Device) are read from libvirt's XML and written back as XML; the management service changes
-- the devices of a domain (Resources), of which consoles are given by URLs (ConsoleUrl) and memory
-- and disks by the properties of a resource (DeviceRasd). The migration service moves a domain to another
-- host by a job that runs beside its client (Migration).
--
-- What models what:
--   ListUtil        libxkutil/list_util.c: the circular doubly linked list, on an explicit memory of
--                   cells; a read through NULL or a freed cell is `none`. ListUtil/Seq is the
--                   specification on sequences, and `Holds` relates the two.
--   Text, Ident     sscanf and asprintf as far as the program uses them; parse_id (libxkutil/misc_util.c),
--                   get_fq_devid and parse_fq_devid (libxkutil/device_parsing.c), make_rule_id and
--                   parse_rule_id (libxkutil/acl_parsing.c).
--   Host            libvirt, the files, and the macros of libcmpiutil, none of which the repository
--                   holds: a record of functions on one World. Host/Files, StateLaws in
--                   StateChange/Targets, and ImageLaws in Snapshot/Images say what the proofs rely on;
--                   Host/Toy is a machine on which these hold.
--   Infostore       libxkutil/infostore.c: a context is a path and the children of <dominfo>.
--   MiscUtil        libxkutil/misc_util.c: class names, and connect_by_classname with its table of
--                   hypervisors, which is passed along as state.
--   Vsss, Snapshot  src/Virt_VirtualSystemSnapshotService.c: the save image, the methods, and the
--                   thread; a job is the list of the updates sent to it.
--   ComputerSystem  src/Virt_ComputerSystem.c: set_state_from_dom and the tables of states.
--   Scheduler,      src/Virt_ComputerSystem.c: set_scheduler_params; __state_change (`change_state`) with
--   StateChange     every handler.
--   Xml, AclRule,   libxkutil/acl_parsing.c, libxkutil/acl_parsing.h and filter_to_xml of
--   AclFilter       libxkutil/xmlgen.c, on a type of XML elements.
--   Compare         STREQ and STREQC of libcmpiutil, with the hypotheses that determine them.
--   Device          libxkutil/device_parsing.h, src/svpc_types.h, and virt_device_dup: a device is a type, a
--                   union and an id. Device/Address is `struct device_address`, read and written.
--   DeviceParse,    libxkutil/device_parsing.c and libxkutil/xmlgen.c: a file for each kind of device.
--   XmlGen          XmlGen/Single is device_to_xml, and attach_device and its kin. Written says what
--                   is left of devices that are written and read again.
--   Resources       src/Virt_VirtualSystemManagementService.c: classify_resources (Resources/Classify),
--                   resource_add, resource_del and resource_mod (Resources/Change).
--   ConsoleUrl      the same file: addresses and URLs of consoles, and console_rasd_to_vdev.
--   DeviceRasd      the same file: rasd_to_vdev with all that it calls, and res_type_from_rasd_classname in
--                   src/Virt_RASD.c. Properties of a resource, stat64 and rand_r are arguments; Requests
--                   puts it under the classify_resources of Resources.
--   Migration       src/Virt_VSMigrationService.c: Request is migrate_do with the settings of a request and
--                   the URI of the destination, Migration itself the thread with migrate_vs. libvirt's
--                   calls for a migration and the broker's answers are arguments.
-- A function is called as in the source, without a leading underscore; where the source branches on
-- an answer of libvirt, a helper by clauses takes that answer.
--
-- State is passed explicitly: the World with the domains and files, and the table of hypervisors. A
-- read through NULL is a fault, `none`, which the theorems speak of where the source can reach it.
-- Loops over the linked list run on fuel, and the theorems give the fuel that is enough: one round
-- more than the list is long. A migration polls 120 times, as in the source. `print_decimal` runs on `n + 1` rounds. Values of a fixed width are cut
-- to it: 64 bits in Infostore, 32 for scheduler parameters, 16 for a requested state.
--
-- Not modelled: messages and debug output, threads running at the same time (a job runs alone),
-- failing allocations outside ListUtil, reference counts of libvirt's objects, the broker's calls, and
-- the domain around its devices (its operating system, features and recovery actions), _default_network,
-- which looks for a pool, the loop over the resources of a request around resource_add and its kin, which
-- rests on that domain, the checks before a migration and its copies of ssh keys, and the components that
-- remain: pools, capabilities, indications, and the providers of settings and associations.
pub mod Prelude
pub mod Text
pub mod ListUtil
pub mod Ident
pub mod Host
pub mod Cmpi
pub mod Infostore
pub mod MiscUtil
pub mod Vsss
pub mod ComputerSystem
pub mod Scheduler
pub mod StateChange
pub mod Snapshot
pub mod Xml
pub mod AclRule
pub mod AclFilter
pub mod Compare
pub mod Device
pub mod DeviceParse
pub mod XmlGen
pub mod Written
pub mod Resources
pub mod ConsoleUrl
pub mod DeviceRasd
pub mod Migration
