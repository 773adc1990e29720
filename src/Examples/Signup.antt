-- ===== src/Examples/Signup.antt =====
-- John signs up next to Jane.
use social_badge_api.Common.{refl, none, arith, codes}
use social_badge_api.Auth.Signup.{SignupRequest, signup}
use social_badge_api.Auth.Signup.Unique.{signup-UniqueEmails, UniqueEmails}
use social_badge_api.Auth.Samples.{env, start}

abbrev request : SignupRequest
request = record {
  first_name = codes "John";
  last_name = none;
  email = codes "john@example.com";
  password = codes "Secret2!";
}

abbrev idle : env.users.State → env.users.State
idle s = s

abbrev taken : SignupRequest
taken = record request { email = codes "jane@example.com" }

signup-UniqueEmails_example : UniqueEmails env (signup env (λ s. s) request start).1.durable.users
signup-UniqueEmails_example =
    signup-UniqueEmails env (λ s. s) request start refl (λ s h. h) (λ m. ground arith)
