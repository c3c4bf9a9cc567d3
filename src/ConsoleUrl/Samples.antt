-- ===== src/ConsoleUrl/Samples.antt =====
-- An address of version 6 with a port, as a console is named by.
use libvirt_cim.Prelude.{◌≡◌, refl, some, codes}
use libvirt_cim.ConsoleUrl.{parse_console_url}
use libvirt_cim.ConsoleUrl.Parsed.{bracketed, parse_console_url-written}

-- raw://[::1]:80
parse_console_url-written_example :
    parse_console_url (codes "raw://[::1]:80")
    ≡ some (codes "raw", codes "[::1]", some (codes "80"))
parse_console_url-written_example =
    parse_console_url-written b'r' (codes "aw") (bracketed b':' (codes ":1"))
      (some (b'8', codes "0")) (refl, (refl, (refl, tt)))
      ((refl, (refl, (refl, tt))), (refl, (refl, (refl, tt))))
      ((refl, (refl, tt)), (refl, (refl, tt)))
