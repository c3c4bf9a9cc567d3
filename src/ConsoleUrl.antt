-- ===== src/ConsoleUrl.antt =====
-- src/Virt_VirtualSystemManagementService.c: the addresses and URLs of graphics and consoles, and consoles
-- read from a request into a device that is zero. A message is `none`; messages are not kept. sscanf is
-- Text.Scanf.
pub mod Parsed
pub mod Rasd
mod Samples
use libvirt_cim.Prelude.{
  ℕ, ◌==◌, Bool, true, false, Option, none, some, List, [], ◌∷◌, ◌++◌, Bytes, codes, if◌then◌else◌,
  ◌>>=?◌,
}
use libvirt_cim.Text.Scanf.{Directive, literal, word, until, Value, text, sscanf}

-- "%m[^:]:%ms"
abbrev pub address_format : List Directive
address_format = until b':' ∷ literal b':' ∷ word ∷ []

-- "%m[^]]]:%ms"
abbrev pub ipv6_format : List Directive
ipv6_format = until b']' ∷ literal b']' ∷ literal b':' ∷ word ∷ []

-- "%m[^:]://%ms"
abbrev pub url_format : List Directive
url_format = until b':' ∷ literal b':' ∷ literal b'/' ∷ literal b'/' ∷ word ∷ []

-- two texts, or any other number of conversions
abbrev pub both : List Value → Option (Bytes × Bytes)
both (text a ∷ text b ∷ []) = some (a, b)
both _ = none

-- the path and the port
unfoldable pub parse_console_address : Bytes → Option (Bytes × Bytes)
parse_console_address id = both (sscanf address_format id)

-- `strstr(id, "[") != NULL`, by the byte
unfoldable pub has_byte : ℕ → Bytes → Bool
has_byte c [] = false
has_byte c (d ∷ s) = if d == c then true else has_byte c s

-- an address and a port, or an address alone
abbrev pub ip_and_port : (Bytes → Bytes) → List Value → Option (Bytes × Option Bytes)
ip_and_port close (text ip ∷ []) = some (close ip, none)
ip_and_port close (text ip ∷ text port ∷ []) = some (close ip, some port)
ip_and_port close _ = none

unfoldable pub parse_ip_address : Bytes → Option (Bytes × Option Bytes)
parse_ip_address id =
    if has_byte b'[' id
    then ip_and_port (λ ip. ip ++ (b']' ∷ [])) (sscanf ipv6_format id)
    else ip_and_port (λ ip. ip) (sscanf address_format id)

-- the protocol, the host and the port
unfoldable pub parse_console_url : Bytes → Option (Bytes × Bytes × Option Bytes)
parse_console_url url = both (sscanf url_format url) >>=? λ parts.
    parse_ip_address parts.1 >>=? λ address. some (parts.0, address.0, address.1)

-- what parse_sdl_address finds: the display and the xauth
abbrev sdl_pair : List Value → Option (Option Bytes × Option Bytes)
sdl_pair (text xauth ∷ []) = some (none, some xauth)
sdl_pair (text xauth ∷ text display ∷ []) = some (some display, some xauth)
sdl_pair _ = none

abbrev sdl_display : List Value → Option (Option Bytes × Option Bytes)
sdl_display (text display ∷ []) = some (some display, none)
sdl_display _ = none

abbrev pub first_of {ℓ} : {A : Type ℓ} → Option A → Option A → Option A
first_of (some a) other = some a
first_of none other = other

module _ (streqc : Bytes → Bytes → Bool) where
  unfoldable pub parse_sdl_address : Bytes → Option (Option Bytes × Option Bytes)
  parse_sdl_address id = first_of (sdl_pair (sscanf address_format id)) (
      first_of (sdl_display (sscanf (literal b':' ∷ word ∷ []) id))
        (if streqc id (codes ":") then some (none, none) else none))
