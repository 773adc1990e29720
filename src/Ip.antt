-- ===== src/Ip.antt =====
-- app/core/ip.py: the client's address, and its masked form.
pub mod Mask
use social_badge_api.Common.{ℕ, Option, none, some, Text, codes, truthy, ◌++◌, if◌then◌else◌}
use social_badge_api.Common.Strip.{strip, before, before_last}

-- What the modelled code reads of a `fastapi.Request`.
pub record Request : Type 0 where
  pub user_agent : Option Text
  pub forwarded_for : Option Text
  pub real_ip : Option Text
  pub client_host : Option Text

-- request.headers.get("X-Real-IP"), then request.client
real_or_host : Request → Option Text
real_or_host q = elim q.real_ip [
  | none ↦ q.client_host
  | some ip ↦ if truthy ip then some (strip ip) else q.client_host
]

unfoldable pub get_client_ip : Request → Option Text
unfolding real_or_host
get_client_ip q = elim q.forwarded_for [
  | none ↦ real_or_host q
  | some forwarded ↦
      if truthy forwarded then some (strip (before b',' forwarded)) else real_or_host q
]

-- The masked form of a text with no ":".
mask_dotted : Text → Text
mask_dotted ip = elim (before_last b'.' ip) [ none ↦ ip | some p ↦ p ++ codes ".x" ]

unfoldable pub mask_ip : Option Text → Option Text
unfolding mask_dotted
mask_ip none = none
mask_ip (some ip) = elim (before_last b':' ip) [
  | none ↦ some (mask_dotted ip)
  | some p ↦ some (p ++ codes ":x")
]
