-- ===== src/Middleware/ClientIp.antt =====
-- src/tr_shared/client_ip.py: the address of the caller, behind a gateway and a proxy.
use tr_shared_lib.Base.{Option, none, some, Bool, true, false, [], ◌∷◌, ◌≡◌, refl}
use tr_shared_lib.Base.Text.{Text, codes}
use tr_shared_lib.Base.Words.{strip, strip_left, is_space}

-- `HTTPConnection`: its state, the two headers that are read, and the host of its client
pub record Connection : Type 0 where
  pub resolved_client_ip : Option Text
  pub gateway_verified : Bool
  pub original_ip : Option Text
  pub real_ip : Option Text
  pub client : Option Text

-- `if value: return value.strip()`, with what follows it
unfoldable pub header_or : Option Text → Text → Text
header_or none rest = rest
header_or (some []) rest = rest
header_or (some (c ∷ cs)) rest = strip (c ∷ cs)

unfoldable pub from_client : Option Text → Text
from_client none = codes "unknown"
from_client (some host) = host

unfoldable pub from_gateway : Bool → Option Text → Text → Text
from_gateway true original rest = header_or original rest
from_gateway false original rest = rest

unfoldable pub resolved_or : Option Text → Text → Text
resolved_or none rest = rest
resolved_or (some []) rest = rest
resolved_or (some (c ∷ cs)) rest = c ∷ cs

unfoldable pub client_ip : Connection → Text
client_ip c =
    resolved_or c.resolved_client_ip
      (from_gateway c.gateway_verified c.original_ip (header_or c.real_ip (from_client c.client)))

-- Unless the gateway's signature was verified, what a caller writes into X-Original-IP has no influence
-- on the address.
client_ip-unverified :
    (c : Connection) (original : Option Text)
    → c.gateway_verified ≡ false
    → client_ip (record c { original_ip = original }) ≡ client_ip c
unfolding client_ip from_gateway
client_ip-unverified c original h = rw h refl

-- What was resolved before is the address, whatever the headers say.
client_ip-resolved :
    (c : Connection) (digit : _) (rest : Text)
    → c.resolved_client_ip ≡ some (digit ∷ rest)
    → client_ip c ≡ digit ∷ rest
unfolding client_ip resolved_or
client_ip-resolved c digit rest h = rw h refl

-- A header of blanks alone is given, and it is no address.
blank :
    client_ip (record {
      resolved_client_ip = none;
      gateway_verified = false;
      original_ip = none;
      real_ip = some (codes " ");
      client = some (codes "10.0.0.1");
    })
    ≡ []
unfolding client_ip header_or strip strip_left is_space resolved_or from_gateway
blank = refl
