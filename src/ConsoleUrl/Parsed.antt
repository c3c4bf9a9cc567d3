-- ===== src/ConsoleUrl/Parsed.antt =====
-- URLs as they are written, and what parse_console_url makes of them.
use libvirt_cim.Prelude.{
  ℕ, ◌==◌, ◌≡◌, ◌≢◌, refl, ap, ◌∙◌, subst, Bool, true, false, Option, none, some, List, [], ◌∷◌,
  ◌++◌, Bytes, ◌>>=?◌, append_assoc, append-nil,
}
use libvirt_cim.Text.Scanf.{
  Directive, literal, word, until, Value, text, sscanf, FreeOf, is_space, span_until,
  span_until-append, sscanf-until, sscanf-last_word, sscanf-literal, sscanf-literal_end,
}
use libvirt_cim.ConsoleUrl.{
  address_format, ipv6_format, both, has_byte, ip_and_port, parse_ip_address, parse_console_url,
}

-- no byte of the text is that one
abbrev pub Without : ℕ → Bytes → Type 0
Without c s = FreeOf (λ d. d == c) s

-- a host name or an address of version 4, or an address of version 6 in brackets; the first byte apart
pub data Host : Type 0 where
  plain bracketed : ℕ → Bytes → Host

abbrev pub host_text : Host → Bytes
host_text (plain a s) = a ∷ s
host_text (bracketed a s) = b'[' ∷ a ∷ (s ++ (b']' ∷ []))

-- nothing in the host ends it
abbrev pub HostWritten : Host → Type 0
HostWritten (plain a s) = Without b':' (a ∷ s) × Without b'[' (a ∷ s) × FreeOf is_space (a ∷ s)
HostWritten (bracketed a s) = Without b']' (a ∷ s) × FreeOf is_space (a ∷ s)

abbrev pub port_text : Option (ℕ × Bytes) → Bytes
port_text none = []
port_text (some (a, s)) = b':' ∷ a ∷ s

abbrev pub port_value : Option (ℕ × Bytes) → Option Bytes
port_value none = none
port_value (some (a, s)) = some (a ∷ s)

abbrev pub PortWritten : Option (ℕ × Bytes) → Type 0
PortWritten none = Unit
PortWritten (some (a, s)) = Without b'[' (a ∷ s) × FreeOf is_space (a ∷ s)

FreeOf-append :
    (stop : ℕ → Bool) (s t : Bytes) → FreeOf stop s → FreeOf stop t → FreeOf stop (s ++ t)
FreeOf-append stop [] t f g = g
FreeOf-append stop (a ∷ s) t f g = (f.0, FreeOf-append stop s t f.1 g)

has_byte-Without : (c : ℕ) (s : Bytes) → Without c s → has_byte c s ≡ false
unfolding has_byte
has_byte-Without c [] f = refl
has_byte-Without c (d ∷ s) f = rw f.0 (has_byte-Without c s f.1)

-- `%m[^c]` up to the end, and up to the byte
until_end :
    (c a : ℕ) (s : Bytes) (d : ℕ) (ds : List Directive)
    → Without c (a ∷ s)
    → sscanf (until c ∷ literal d ∷ ds) (a ∷ s) ≡ text (a ∷ s) ∷ []
until_end c a s d ds f =
    sscanf-until c (literal d ∷ ds) (a ∷ s) a s [] (
      subst (λ x. span_until (λ e. e == c) x ≡ (a ∷ s, [])) (append-nil (a ∷ s))
        (span_until-append (λ e. e == c) (a ∷ s) [] f tt))
    ∙ ap (λ l. text (a ∷ s) ∷ l) (sscanf-literal_end d ds)

until_byte :
    (c a : ℕ) (s rest : Bytes) (ds : List Directive)
    → Without c (a ∷ s)
    → (c == c) ≡ true
    → sscanf (until c ∷ literal c ∷ ds) (a ∷ (s ++ (c ∷ rest))) ≡ text (a ∷ s) ∷ sscanf ds rest
until_byte c a s rest ds f e =
    sscanf-until c (literal c ∷ ds) (a ∷ (s ++ (c ∷ rest))) a s (c ∷ rest)
      (span_until-append (λ d. d == c) (a ∷ s) (c ∷ rest) f e)
    ∙ ap (λ l. text (a ∷ s) ∷ l) (sscanf-literal c ds rest)

unbracketed :
    (id : Bytes)
    → has_byte b'[' id ≡ false
    → parse_ip_address id ≡ ip_and_port (λ ip. ip) (sscanf address_format id)
unfolding parse_ip_address
unbracketed id e = rw e refl

in_brackets :
    (s : Bytes)
    → parse_ip_address (b'[' ∷ s)
      ≡ ip_and_port (λ ip. ip ++ (b']' ∷ [])) (sscanf ipv6_format (b'[' ∷ s))
unfolding parse_ip_address has_byte
in_brackets s = refl

-- an address without brackets
plain_address :
    (a : ℕ) (s : Bytes) (port : Option (ℕ × Bytes))
    → HostWritten (plain a s)
    → PortWritten port
    → parse_ip_address (a ∷ (s ++ port_text port)) ≡ some (a ∷ s, port_value port)
plain_address a s none (c, b, w) p =
    ap parse_ip_address (append-nil (a ∷ s))
    ∙ unbracketed (a ∷ s) (has_byte-Without b'[' (a ∷ s) b)
    ∙ ap (ip_and_port (λ ip. ip)) (until_end b':' a s b':' (word ∷ []) c)
plain_address a s (some (q, r)) (c, b, w) (pb, pw) =
    unbracketed (a ∷ (s ++ (b':' ∷ q ∷ r)))
      (has_byte-Without b'[' _ (FreeOf-append (λ d. d == b'[') (a ∷ s) (b':' ∷ q ∷ r) b (refl, pb)))
    ∙ ap (ip_and_port (λ ip. ip)) (
        until_byte b':' a s (q ∷ r) (word ∷ []) c refl
        ∙ ap (λ l. text (a ∷ s) ∷ l) (sscanf-last_word q r pw))

-- what is left behind the bracket
port_values : Option (ℕ × Bytes) → List Value
port_values none = []
port_values (some (q, r)) = text (q ∷ r) ∷ []

scans_port :
    (port : Option (ℕ × Bytes))
    → PortWritten port
    → sscanf (literal b':' ∷ word ∷ []) (port_text port) ≡ port_values port
unfolding port_values
scans_port none p = sscanf-literal_end b':' (word ∷ [])
scans_port (some (q, r)) p = sscanf-literal b':' (word ∷ []) (q ∷ r) ∙ sscanf-last_word q r p.1

closes :
    (ip : Bytes) (port : Option (ℕ × Bytes))
    → ip_and_port (λ x. x ++ (b']' ∷ [])) (text ip ∷ port_values port)
      ≡ some (ip ++ (b']' ∷ []), port_value port)
unfolding port_values
closes ip none = refl
closes ip (some (q, r)) = refl

bracketed_address :
    (a : ℕ) (s : Bytes) (port : Option (ℕ × Bytes))
    → HostWritten (bracketed a s)
    → PortWritten port
    → parse_ip_address (host_text (bracketed a s) ++ port_text port)
      ≡ some (host_text (bracketed a s), port_value port)
bracketed_address a s port (c, w) p =
    ap (λ x. parse_ip_address (b'[' ∷ a ∷ x)) (append_assoc s (b']' ∷ []) (port_text port))
    ∙ in_brackets (a ∷ (s ++ (b']' ∷ port_text port)))
    ∙ ap (ip_and_port (λ ip. ip ++ (b']' ∷ []))) (
        until_byte b']' b'[' (a ∷ s) (port_text port) (literal b':' ∷ word ∷ []) (refl, c) refl
        ∙ ap (λ l. text (b'[' ∷ a ∷ s) ∷ l) (scans_port port p))
    ∙ closes (b'[' ∷ a ∷ s) port

address :
    (h : Host) (port : Option (ℕ × Bytes))
    → HostWritten h
    → PortWritten port
    → parse_ip_address (host_text h ++ port_text port) ≡ some (host_text h, port_value port)
address (plain a s) port w p = plain_address a s port w p
address (bracketed a s) port w p = bracketed_address a s port w p

port_spaceless : (port : Option (ℕ × Bytes)) → PortWritten port → FreeOf is_space (port_text port)
port_spaceless none p = tt
port_spaceless (some (q, r)) p = (refl, p.1)

host_spaceless : (h : Host) → HostWritten h → FreeOf is_space (host_text h)
host_spaceless (plain a s) w = w.2
host_spaceless (bracketed a s) w =
    (refl, (w.1.0, FreeOf-append is_space s (b']' ∷ []) w.1.1 (refl, tt)))

-- a text that is not empty and has no white space scans as one word
scans_address :
    (s : Bytes)
    → s ≢ []
    → FreeOf is_space s
    → sscanf (literal b'/' ∷ literal b'/' ∷ word ∷ []) (b'/' ∷ b'/' ∷ s) ≡ text s ∷ []
scans_address [] n f = absurd (n refl)
scans_address (a ∷ s) n f =
    sscanf-literal b'/' (literal b'/' ∷ word ∷ []) (b'/' ∷ a ∷ s)
    ∙ sscanf-literal b'/' (word ∷ []) (a ∷ s)
    ∙ sscanf-last_word a s f

full : (h : Host) (t : Bytes) → host_text h ++ t ≢ []
full (plain a s) t = λ e. cc
full (bracketed a s) t = λ e. cc

-- A URL "protocol://host" or "protocol://host:port" reads as its protocol, host and port, none of them empty,
-- where the protocol has no colon; the host has neither a colon nor a "[", or it is in brackets with no "]"
-- inside; the port has no "["; and neither the host nor the port has white space. The brackets stay with
-- the host.
pub parse_console_url-written :
    (a : ℕ) (protocol : Bytes) (h : Host) (port : Option (ℕ × Bytes))
    → Without b':' (a ∷ protocol)
    → HostWritten h
    → PortWritten port
    → parse_console_url (a ∷ (protocol ++ (b':' ∷ b'/' ∷ b'/' ∷ (host_text h ++ port_text port))))
      ≡ some (a ∷ protocol, host_text h, port_value port)
unfolding parse_console_url
parse_console_url-written a protocol h port c w p =
    let rest : Bytes = host_text h ++ port_text port in
    ap
      (λ l. both l >>=? λ parts.
        parse_ip_address parts.1 >>=? λ address. some (parts.0, address.0, address.1))
      (until_byte b':' a protocol (b'/' ∷ b'/' ∷ rest) (literal b'/' ∷ literal b'/' ∷ word ∷ []) c
          refl
        ∙ ap (λ l. text (a ∷ protocol) ∷ l)
            (scans_address rest (full h (port_text port)) (
              FreeOf-append is_space (host_text h) (port_text port) (host_spaceless h w)
                (port_spaceless port p))))
    ∙ ap (λ o. o >>=? λ address. some (a ∷ protocol, address.0, address.1)) (address h port w p)
