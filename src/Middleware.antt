-- ===== src/Middleware.antt =====
-- ContentSizeLimitMiddleware of app/core/middleware/content_size.py.
use social_badge_api.Common.{
  ℕ, ◌+◌, ◌≤◌, ◌≡◌, ◌∙◌, ap, refl, inl, inr, Bool, true, false, not, Option, none, some, List, [],
  ◌∷◌, Text, codes, length, ltb, Bool-cases, if◌then◌else◌, arith,
}

-- What `int` gives.
pub data ℤ : Type 0 where
  pos : ℕ → ℤ
  negsuc : ℕ → ℤ

-- The messages of ASGI: a chunk of the body, or any other.
pub data Message : Type 0 where
  http_request : List ℕ → Message
  http_disconnect : Message

-- The application: it returns what it sent, lets the exception of the limit through, or receives a
-- message, where `none` is that exception, which it may catch.
pub data App (R : Type 0) : Type 0 where
  returns : R → App R
  raises : App R
  receives : (Option Message → App R) → App R

pub data Response (R : Type 0) : Type 0 where
  answered : R → Response R
  refused : ℕ → Text → Response R

abbrev pub too_large : {R : Type 0} → Response R
too_large = refused 413 (codes "Request body too large")

abbrev pub size_of : Message → ℕ
size_of (http_request body) = length body
size_of http_disconnect = 0

abbrev pub is_request : Message → Bool
is_request (http_request body) = true
is_request http_disconnect = false

-- The bytes of the body that are received.
abbrev pub total : List Message → ℕ
total [] = 0
total (m ∷ ms) = size_of m + total ms

abbrev exceeds : ℕ → ℤ → Bool
exceeds max_body_bytes (pos n) = ltb max_body_bytes n
exceeds max_body_bytes (negsuc n) = false

-- The header is absent, or a number that is not over the limit.
abbrev pub allowed : (Text → Option ℤ) → ℕ → Option Text → Bool
allowed int max_body_bytes none = true
allowed int max_body_bytes (some header) = elim (int header) [
  | none ↦ false
  | some n ↦ not (exceeds max_body_bytes n)
]

-- `limited_receive` with `received_size`: what it gives, and the new size.
unfoldable pub limited_receive : ℕ → ℕ → Message → Option Message × ℕ
limited_receive max_body_bytes received_size http_disconnect = (some http_disconnect, received_size)
limited_receive max_body_bytes received_size (http_request body) =
    if ltb max_body_bytes (received_size + length body)
    then (none, received_size)
    else (some (http_request body), received_size + length body)

receive_disconnect : (max n : ℕ) → limited_receive max n http_disconnect ≡ (some http_disconnect, n)
unfolding limited_receive
receive_disconnect max n = refl

module _ (max n : ℕ) (body : List ℕ) where
  receive_large :
      ltb max (n + length body) ≡ true → limited_receive max n (http_request body) ≡ (none, n)
  unfolding limited_receive
  receive_large h = rw h refl

  receive_fits :
      ltb max (n + length body) ≡ false
      → limited_receive max n (http_request body) ≡ (some (http_request body), n + length body)
  unfolding limited_receive
  receive_fits h = rw h refl

module _ {R : Type 0} where
  -- What the application was given, with what it is given later.
  abbrev keep : Option Message → Response R × List Message → Response R × List Message
  keep given later = (later.0, elim given [ none ↦ later.1 | some got ↦ got ∷ later.1 ])

  -- The application on a `receive`, and the messages that it was given. After the last message the
  -- client is gone.
  unfoldable pub limited : ℕ → App R → List Message → ℕ → Response R × List Message
  limited max_body_bytes (returns r) ms received_size = (answered r, [])
  limited max_body_bytes raises ms received_size = (too_large, [])
  limited max_body_bytes (receives k) [] received_size =
      limited max_body_bytes (k (some http_disconnect)) [] received_size
  limited max_body_bytes (receives k) (m ∷ ms) received_size =
      let (given, size) = limited_receive max_body_bytes received_size m in
      keep given (limited max_body_bytes (k given) ms size)

  -- The application without the limit.
  unfoldable pub unlimited : App R → List Message → Response R × List Message
  unlimited (returns r) ms = (answered r, [])
  unlimited raises ms = (too_large, [])
  unlimited (receives k) [] = unlimited (k (some http_disconnect)) []
  unlimited (receives k) (m ∷ ms) =
      let (response, rest) = unlimited (k (some m)) ms in (response, m ∷ rest)

  -- The header, then the application. `int` is Python's, `none` where it raises ValueError.
  unfoldable pub call :
      (Text → Option ℤ) → ℕ → Bool → Option Text → App R → List Message → Response R × List Message
  call int max_body_bytes is_http content_length app ms =
      let through = limited max_body_bytes app ms 0 in
      if is_http
      then (elim content_length [
        | none ↦ through
        | some header ↦ elim (int header) [
          | none ↦ (refused 400 (codes "Invalid Content-Length header"), [])
          | some n ↦ if exceeds max_body_bytes n then (too_large, []) else through
        ]
      ])
      else unlimited app ms

  limited-keep :
      (max n size : ℕ) (k : Option Message → App R) (m : Message) (ms : List Message)
      (given : Option Message)
      → limited_receive max n m ≡ (given, size)
      → limited max (receives k) (m ∷ ms) n ≡ keep given (limited max (k given) ms size)
  unfolding limited
  limited-keep max n size k m ms given h = ap (λ p. keep (p.0) (limited max (k (p.0)) ms (p.1))) h

  -- Whatever the application does, also when it catches the exception, the bodies that it was given have together at most the bytes of the limit.
  pub limited-bounded :
      (max_body_bytes : ℕ) (app : App R) (ms : List Message) (received_size : ℕ)
      → received_size ≤ max_body_bytes
      → received_size + total ((limited max_body_bytes app ms received_size).1) ≤ max_body_bytes
  unfolding limited
  limited-bounded max (returns r) ms n h = omega (arith, h)
  limited-bounded max raises ms n h = omega (arith, h)
  limited-bounded max (receives k) [] n h = limited-bounded max (k (some http_disconnect)) [] n h
  limited-bounded max (receives k) (http_disconnect ∷ ms) n h =
      let got = some http_disconnect in
      let ih = limited-bounded max (k got) ms n h in
      rw (limited-keep max n n k http_disconnect ms got (receive_disconnect max n))
        (omega (arith, ih))
  limited-bounded max (receives k) (http_request body ∷ ms) n h =
      elim (Bool-cases (ltb max (n + length body))) [
        | inl large ↦
            let step =
              limited-keep max n n k (http_request body) ms none (receive_large max n body large) in
            rw step (limited-bounded max (k none) ms n h)
        | inr fits ↦
            let got = some (http_request body) in
            let step =
              limited-keep max n (n + length body) k (http_request body) ms got
                (receive_fits max n body fits) in
            let ih = limited-bounded max (k got) ms (n + length body) (ground (arith, fits)) in
            rw step (omega (arith, ih))
      ]

  -- If what was received and what is to come are together within the limit, the application runs as without one.
  pub limited-unlimited :
      (max_body_bytes : ℕ) (app : App R) (ms : List Message) (received_size : ℕ)
      → received_size + total ms ≤ max_body_bytes
      → limited max_body_bytes app ms received_size ≡ unlimited app ms
  unfolding limited unlimited
  limited-unlimited max (returns r) ms n h = refl
  limited-unlimited max raises ms n h = refl
  limited-unlimited max (receives k) [] n h =
      limited-unlimited max (k (some http_disconnect)) [] n h
  limited-unlimited max (receives k) (http_disconnect ∷ ms) n h =
      let got = some http_disconnect in
      limited-keep max n n k http_disconnect ms got (receive_disconnect max n)
      ∙ ap (keep got) (limited-unlimited max (k got) ms n (omega (arith, h)))
  limited-unlimited max (receives k) (http_request body ∷ ms) n h =
      let got = some (http_request body) in
      let fits : ltb max (n + length body) ≡ false = ground (arith, h) in
      limited-keep max n (n + length body) k (http_request body) ms got
        (receive_fits max n body fits)
      ∙ ap (keep got) (limited-unlimited max (k got) ms (n + length body) (omega (arith, h)))

  -- Whatever its headers and whatever the application does, also when it catches the exception of
  -- the limit, an HTTP request gives the application bodies of together at most the bytes of the
  -- limit.
  pub call-bounded :
      (int : Text → Option ℤ) (max_body_bytes : ℕ) (content_length : Option Text) (app : App R)
      (ms : List Message)
      → total ((call int max_body_bytes true content_length app ms).1) ≤ max_body_bytes
  unfolding call
  call-bounded int max content_length app ms =
      let within = limited-bounded max app ms 0 (omega arith) in ground (arith, within)

  -- A request whose length is absent, or a number that is not over the limit, and whose body is
  -- within the limit is answered, and read, as without the middleware.
  pub call-unlimited :
      (int : Text → Option ℤ) (max_body_bytes : ℕ) (is_http : Bool) (content_length : Option Text)
      (app : App R) (ms : List Message)
      → allowed int max_body_bytes content_length ≡ true
      → total ms ≤ max_body_bytes
      → call int max_body_bytes is_http content_length app ms ≡ unlimited app ms
  unfolding call
  call-unlimited int max is_http content_length app ms h k =
      let same = limited-unlimited max app ms 0 (omega (arith, k)) in ground (arith, h, same)
