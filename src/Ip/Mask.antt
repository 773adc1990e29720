-- ===== src/Ip/Mask.antt =====
-- What `mask_ip` hides, and what `get_client_ip` trusts.
use social_badge_api.Common.{
  ◌≡◌, refl, Option, none, some, inl, inr, Option-cases, Text, codes, [], ◌∷◌, ◌++◌, arith, truthy,
  true,
}
use social_badge_api.Common.Strip.{
  before_last-append, before_last-Lacks, Lacks, Lacks-append, Lacks-of_none, Lacks-before_last,
  before_last, before-append, strip,
}
use social_badge_api.Ip.{Request, get_client_ip, mask_ip}

-- The masked form of an address with a colon does not depend on what follows the last colon.
pub mask_ip_v6 :
    (p a b : Text)
    → Lacks b':' a
    → Lacks b':' b
    → mask_ip (some (p ++ b':' ∷ a)) ≡ mask_ip (some (p ++ b':' ∷ b))
unfolding mask_ip
mask_ip_v6 p a b ha hb =
    ground (arith, before_last-append b':' p a ha, before_last-append b':' p b hb)

-- Nor that of an IPv4 text on its last block.
pub mask_ip_v4 :
    (p a b : Text)
    → Lacks b':' p
    → Lacks b':' a
    → Lacks b':' b
    → Lacks b'.' a
    → Lacks b'.' b
    → mask_ip (some (p ++ b'.' ∷ a)) ≡ mask_ip (some (p ++ b'.' ∷ b))
unfolding mask_ip
mask_ip_v4 p a b hp ha hb da db = ground (
  arith,
  before_last-append b'.' p a da,
  before_last-append b'.' p b db,
  before_last-Lacks b':' (p ++ b'.' ∷ a) (Lacks-append b':' p (b'.' ∷ a) hp (refl, ha)),
  before_last-Lacks b':' (p ++ b'.' ∷ b) (Lacks-append b':' p (b'.' ∷ b) hp (refl, hb)),
)

-- Masking a masked text changes nothing.
pub mask_ip_idem : (o : Option Text) → mask_ip (mask_ip o) ≡ mask_ip o
unfolding mask_ip
mask_ip_idem none = refl
mask_ip_idem (some ip) = elim (Option-cases (before_last b':' ip)) [
  | inr (p, e) ↦ ground (arith, e, before_last-append b':' p (codes "x") (refl, tt))
  | inl e ↦ elim (Option-cases (before_last b'.' ip)) [
    | inl d ↦ ground (arith, e, d)
    | inr (p, d) ↦
        let lacks = Lacks-before_last b':' b'.' ip p (Lacks-of_none b':' ip e) d in
        ground (
          arith,
          e,
          d,
          before_last-append b'.' p (codes "x") (refl, tt),
          before_last-Lacks b':' (p ++ codes ".x")
              (Lacks-append b':' p (codes ".x") lacks (refl, (refl, tt))),
        )
  ]
]

-- If the X-Forwarded-For header has a nonempty first entry and a comma after it, the client's
-- address is that entry, stripped, whatever follows.
pub get_client_ip_forwarded :
    (q : Request) (f rest : Text)
    → Lacks b',' f
    → truthy f ≡ true
    → q.forwarded_for ≡ some (f ++ b',' ∷ rest)
    → get_client_ip q ≡ some (strip f)
unfolding get_client_ip
get_client_ip_forwarded q (x ∷ f) rest l t h = ground (arith, h, before-append b',' (x ∷ f) rest l)
get_client_ip_forwarded q [] rest l t h = cc
