-- ===== src/ConsoleUrl/Rasd.antt =====
-- _unixsock_console_rasd_to_vdev, _udp_console_rasd_to_vdev, _tcp_console_rasd_to_vdev and
-- console_rasd_to_vdev, into a device that is zero.
use libvirt_cim.Prelude.{
  ℕ, ◌==◌, ◌≡◌, refl, ap, ◌∙◌, Bool, false, Option, none, some, Bytes, codes, if◌then◌else◌, ◌>>=?◌,
  >>=?-inv, ◌⊎◌, inl, inr, Bool-cases,
}
use libvirt_cim.Device.{
  ConsoleSource, null, vc, stdio, spicevmc, pty, dev, file, pipe, unixsock, udp, tcp, ConsoleDevice,
}
use libvirt_cim.ConsoleUrl.{parse_console_url}

-- the properties of a ConsoleRASD that the request sets
pub record ConsoleRasd : Type 0 where
  pub source_type : Option ℕ
  pub target_type : Option Bytes
  pub source_path : Option Bytes
  pub connect_url : Option Bytes
  pub bind_url : Option Bytes

-- the mode and the URL, where exactly one of the two is there
unfoldable pub one_url : Option Bytes → Option Bytes → Option (Bytes × Bytes)
one_url (some connect) none = some (codes "connect", connect)
one_url none (some bind) = some (codes "bind", bind)
one_url _ _ = none

module _ (streqc : Bytes → Bytes → Bool) where
  abbrev unixsock_of : Bytes → Bytes × Bytes × Option Bytes → Option ConsoleSource
  unixsock_of mode (protocol, path, port) =
      if streqc (codes "file") protocol then some (unixsock (some mode) (some path)) else none

  unfoldable pub unixsock_console : ConsoleRasd → Option ConsoleSource
  unixsock_console inst = one_url inst.connect_url inst.bind_url >>=? λ url.
      parse_console_url url.1 >>=? unixsock_of url.0

  -- the host and the port, of the protocol "udp" only
  abbrev udp_address : Bytes × Bytes × Option Bytes → Option (Bytes × Option Bytes)
  udp_address (protocol, host, port) =
      if streqc (codes "udp") protocol then some (host, port) else none

  unfoldable pub udp_console : ConsoleRasd → Option ConsoleSource
  udp_console inst = inst.connect_url >>=? λ connect_url.
      parse_console_url connect_url >>=? udp_address >>=? λ connect. inst.bind_url >>=? λ bind_url.
      parse_console_url bind_url >>=? udp_address >>=? λ bind.
      some (udp (some bind.0) bind.1 (some connect.0) connect.1)

  -- a port there has to be, and neither "udp" nor "file"
  abbrev tcp_of : Bytes → Bytes × Bytes × Option Bytes → Option ConsoleSource
  tcp_of mode (protocol, host, none) = none
  tcp_of mode (protocol, host, some port) =
      if streqc (codes "udp") protocol
      then none
      else if streqc (codes "file") protocol
      then none
      else some (tcp (some mode) (some protocol) (some host) (some port))

  unfoldable pub tcp_console : ConsoleRasd → Option ConsoleSource
  tcp_console inst =
      one_url inst.connect_url inst.bind_url >>=? λ url. parse_console_url url.1 >>=? tcp_of url.0

  -- by the number of the source type; one that is CIM_CHARDEV_SOURCE_TYPE_INVALIDTYPE or more is refused
  unfoldable pub console_source : ℕ → ConsoleRasd → Option ConsoleSource
  console_source type inst =
      if type == 0
      then some null
      else if type == 1
      then some vc
      else if type == 2
      then some (pty inst.source_path)
      else if type == 3
      then (inst.source_path >>=? λ path. some (dev (some path)))
      else if type == 4
      then (inst.source_path >>=? λ path. some (file (some path)))
      else if type == 5
      then (inst.source_path >>=? λ path. some (pipe (some path)))
      else if type == 6
      then some stdio
      else if type == 7
      then udp_console inst
      else if type == 8
      then tcp_console inst
      else if type == 9
      then unixsock_console inst
      else if type == 10
      then some spicevmc
      else none

  unfoldable pub console_rasd_to_vdev : ConsoleRasd → Option ConsoleDevice
  console_rasd_to_vdev inst = inst.source_type >>=? λ type. console_source type inst >>=? λ source.
      some (record { source_dev = source; target_type = inst.target_type })

-- The URL that the console connects to, and none to bind, or the other way round.
abbrev pub OnlyUrl : ConsoleRasd → Bytes → Bytes → Type 0
OnlyUrl inst mode url =
    ((inst.connect_url ≡ some url) × (inst.bind_url ≡ none) × (mode ≡ codes "connect"))
    ⊎ ((inst.connect_url ≡ none) × (inst.bind_url ≡ some url) × (mode ≡ codes "bind"))

one_url-inv :
    (c b : Option Bytes) (mode url : Bytes)
    → one_url c b ≡ some (mode, url)
    → ((c ≡ some url) × (b ≡ none) × (mode ≡ codes "connect"))
      ⊎ ((c ≡ none) × (b ≡ some url) × (mode ≡ codes "bind"))
unfolding one_url
one_url-inv (some c) none mode url e = inl (cc, refl, cc)
one_url-inv none (some b) mode url e = inr (refl, cc, cc)
one_url-inv (some c) (some b) mode url e = absurd (cc)
one_url-inv none none mode url e = absurd (cc)

module _ (streqc : Bytes → Bytes → Bool) where
  -- the parts of the only URL, in a console that the model's TCP has
  abbrev pub TcpRead : ConsoleRasd → ConsoleSource → Type 0
  TcpRead inst s =
      (mode : Bytes) × (url : Bytes) × (protocol : Bytes) × (host : Bytes) × (port : Bytes)
      × OnlyUrl inst mode url
      × (parse_console_url url ≡ some (protocol, host, some port))
      × (streqc (codes "udp") protocol ≡ false)
      × (streqc (codes "file") protocol ≡ false)
      × (s ≡ tcp (some mode) (some protocol) (some host) (some port))

  tcp_of-inv :
      (mode protocol host : Bytes) (o : Option Bytes) (s : ConsoleSource)
      → tcp_of streqc mode (protocol, host, o) ≡ some s
      → (port : Bytes) × (o ≡ some port)
        × (streqc (codes "udp") protocol ≡ false)
        × (streqc (codes "file") protocol ≡ false)
        × (s ≡ tcp (some mode) (some protocol) (some host) (some port))
  tcp_of-inv mode protocol host none s e = absurd (cc)
  tcp_of-inv mode protocol host (some port) s e =
      elim (Bool-cases (streqc (codes "udp") protocol)) [
        | inl u ↦ absurd (cc (rw u at e))
        | inr u ↦ elim (Bool-cases (streqc (codes "file") protocol)) [
          | inl f ↦ absurd (cc (rw (u, f) at e))
          | inr f ↦ (port, refl, u, f, cc (rw (u, f) at e))
        ]
      ]

  -- A TCP console is read only from one URL, to connect to or to bind, that has a protocol other than
  -- "udp" and "file", a host and a port, and these stand in it.
  pub tcp_console-TcpRead :
      (inst : ConsoleRasd) (s : ConsoleSource) → tcp_console streqc inst ≡ some s → TcpRead inst s
  unfolding tcp_console
  tcp_console-TcpRead inst s e =
      let ((mode, url), one, parsed) =
        >>=?-inv (one_url inst.connect_url inst.bind_url)
          (λ u. parse_console_url u.1 >>=? tcp_of streqc u.0) s e in
      let ((protocol, host, o), p, q) =
        >>=?-inv (parse_console_url url) (tcp_of streqc mode) s parsed in
      let (port, i, u, f, r) = tcp_of-inv mode protocol host o s q in
      (
        mode,
        url,
        protocol,
        host,
        port,
        one_url-inv inst.connect_url inst.bind_url mode url one,
        p ∙ ap (λ x. some (protocol, host, x)) i,
        u,
        f,
        r,
      )
