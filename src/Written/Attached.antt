-- ===== src/Written/Attached.antt =====
-- What attach_device and detach_device hand to libvirt: device_to_xml of a copy of the device.
use libvirt_cim.Prelude.{
  ◌≡◌, ap, ◌∙◌, sym, subst, Bool, true, false, none, some, Bytes, strcmp_eq, ◌↔◌, ◌>>=?◌,
}
use libvirt_cim.Compare.{streq-strcmp_eq}
use libvirt_cim.Xml.{Node, leaf, append_nodes}
use libvirt_cim.Device.{disk, DiskDevice, disk_dev, VirtDevice}
use libvirt_cim.Device.Dup.{virt_device_dup, virt_device_dup_lem, type_of, without_weight}
use libvirt_cim.DeviceParse.{one}
use libvirt_cim.DeviceParse.Disk.{parse_disk_device}
use libvirt_cim.XmlGen.{each_device, unless_unknown}
use libvirt_cim.XmlGen.Disk.{one_disk_xml, disk_xml}
use libvirt_cim.XmlGen.Single.{
  Running, first_node, device_to_xml, xml_of_type, change_device_with, attach_device, detach_device,
  net_or_disk,
}
use libvirt_cim.Written.Disk.{DiskWritten, device_as_read, reads_device}

copied :
    (v : VirtDevice) (d : DiskDevice) (id : Bytes)
    → v.type ≡ disk
    → v.dev ≡ disk_dev d
    → v.id ≡ some id
    → virt_device_dup v ≡ some v
copied v d id t e i =
    virt_device_dup_lem v id i (t ∙ ap type_of (sym e))
    ∙ ap (λ x. some (record v { dev = x })) (ap without_weight e ∙ sym e)

module _ (streqc : Bytes → Bytes → Bool) (v : VirtDevice) (d : DiskDevice) (id : Bytes)
    (is_disk : v.type ≡ disk) (is_dev : v.dev ≡ disk_dev d) (is_id : v.id ≡ some id)
    (written : DiskWritten d) where
  node_of :
      (n : Node) × (device_to_xml strcmp_eq streqc v ≡ some n)
      × (parse_disk_device strcmp_eq n ≡ one (device_as_read v))
  unfolding device_to_xml xml_of_type disk_xml each_device append_nodes
  node_of =
      let (n, p, r) = reads_device v d is_dev written in
      (
        n,
        ap (λ o. o >>=? λ dev. xml_of_type strcmp_eq streqc v.type dev >>=? first_node)
              (copied v d id is_disk is_dev is_id)
            ∙ ap (λ t. xml_of_type strcmp_eq streqc t v >>=? first_node) is_disk
            ∙ ap
                (λ t.
                  (unless_unknown t (one_disk_xml strcmp_eq v.dev) >>=? λ nodes.
                  some (append_nodes nodes leaf))
                  >>=? first_node)
                is_disk
            ∙ ap (λ o. (o >>=? λ nodes. some (append_nodes nodes leaf)) >>=? first_node) p,
        r,
      )

  handed_over :
      (dom : Running)
      → (n : Node) × (attach_device strcmp_eq streqc dom v ≡ dom.attach n)
        × (detach_device strcmp_eq streqc dom v ≡ dom.detach n)
        × (parse_disk_device strcmp_eq n ≡ one (device_as_read v))
  unfolding attach_device detach_device change_device_with
  handed_over dom =
      let (n, p, r) = node_of in
      (
        n,
        ap (λ t. net_or_disk strcmp_eq streqc dom t dom.attach v) is_disk
            ∙ ap (λ o. elim o [ none ↦ false | some xml ↦ dom.attach xml ]) p,
        ap (λ t. net_or_disk strcmp_eq streqc dom t dom.detach v) is_disk
            ∙ ap (λ o. elim o [ none ↦ false | some xml ↦ dom.detach xml ]) p,
        r,
      )

-- Where STREQ compares strings, a disk with an id that can be written is attached and detached with one
-- node, and the answer is libvirt's; the node reads as the disk that it was made from.
pub attach_device-disk :
    (streq streqc : Bytes → Bytes → Bool)
    → ((s t : Bytes) → (streq s t ≡ true) ↔ (s ≡ t))
    → (dom : Running) (v : VirtDevice) (d : DiskDevice) (id : Bytes) → v.type ≡ disk
    → v.dev ≡ disk_dev d
    → v.id ≡ some id
    → DiskWritten d
    → (n : Node) × (attach_device streq streqc dom v ≡ dom.attach n)
      × (detach_device streq streqc dom v ≡ dom.detach n)
      × (parse_disk_device streq n ≡ one (device_as_read v))
attach_device-disk streq streqc streq_iff dom v d id t e i w =
    subst
      (λ eq.
        (n : Node) × (attach_device eq streqc dom v ≡ dom.attach n)
        × (detach_device eq streqc dom v ≡ dom.detach n)
        × (parse_disk_device eq n ≡ one (device_as_read v)))
      (sym (streq-strcmp_eq streq streq_iff)) (handed_over streqc v d id t e i w dom)
