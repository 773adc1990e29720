-- ===== src/Profile/Samples.antt =====
-- The sample accounts and the sample badges, side by side.
use social_badge_api.Auth.State.{User}
use social_badge_api.Auth.State as Accounts
use social_badge_api.Auth.Samples as Jane
use social_badge_api.Content.State as Contents
use social_badge_api.Content.Samples as Party
use social_badge_api.Profile.{ProfileWorld}

abbrev pub accounts : Accounts.Env
accounts = Jane.env

abbrev pub contents : Contents.Env
contents = Party.env

abbrev pub jane : User
jane = Jane.jane

abbrev pub first : Accounts.World accounts
first = Jane.start

abbrev pub both : ProfileWorld accounts contents
both = record { account = first; content = Party.start }
