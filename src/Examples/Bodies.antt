-- ===== src/Examples/Bodies.antt =====
-- An application that reads two messages.
use social_badge_api.Common.{ℕ, ◌≤◌, ◌≡◌, refl, true, none, some, List, [], ◌∷◌, codes, arith}
use social_badge_api.Middleware.{
  call-bounded, Message, App, total, call, returns, receives, http_request, pos, call-unlimited,
  unlimited,
}

-- It catches the exception of the limit.
abbrev reader : App ℕ
reader = receives (λ first. receives (λ second. returns 7))

abbrev chunks : List Message
chunks = http_request (1 ∷ 2 ∷ []) ∷ http_request (3 ∷ []) ∷ []

call-bounded_example : total ((call (λ t. none) 2 true none reader chunks).1) ≤ 2
call-bounded_example = call-bounded (λ t. none) 2 none reader chunks

call-unlimited_example :
    call (λ t. some (pos 3)) 3 true (some (codes "3")) reader chunks ≡ unlimited reader chunks
call-unlimited_example =
    call-unlimited (λ t. some (pos 3)) 3 true (some (codes "3")) reader chunks refl (omega arith)
