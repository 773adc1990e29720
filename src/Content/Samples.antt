-- ===== src/Content/Samples.antt =====
-- A small environment for badges and notifications, its tables as lists.
use social_badge_api.Common.{zero, suc, true, false, none, some, [], ◌∷◌, codes}
use social_badge_api.Platform.Samples.{list_table}
use social_badge_api.Content.State.{
  Env, World, Db, Badge, BadgeHashtag, PlatformTemplate, Notification, Preference, badge_creation,
}

-- Identifiers are the numbers of their draws; every random index is 0; an upload succeeds while fewer than
-- two calls were made.
abbrev pub env : Env
env = record {
  badges = list_table Badge;
  hashtags = list_table BadgeHashtag;
  templates = list_table PlatformTemplate;
  notifications = list_table Notification;
  preferences = list_table Preference;
  uuid = λ d. d;
  randbelow = λ d n. 0;
  upload = λ n. elim n [ zero ↦ some (codes "https://cdn/1", codes "logos/1") | suc m ↦ none ];
  destroy = λ n t. true;
}

-- A draft of organiser 1, and a badge of the same organiser that is public as "party".
abbrev pub draft : Badge
draft = record {
  id = 1005;
  organiser_id = 1;
  platform_template_id = 3;
  title = codes "Draft";
  canvas_data = codes "{}";
  default_caption = none;
  destination_link = none;
  thumbnail_url = none;
  logo_url = none;
  logo_public_id = none;
  access_type = 0;
  access_code = none;
  is_published = false;
  published_at = none;
  share_slug = none;
  share_count = 0;
  creation_count = 0;
  deleted_at = none;
}

abbrev pub shown : Badge
shown = record draft {
  id = 1006;
  title = codes "Party";
  logo_public_id = some (codes "logos/0");
  is_published = true;
  published_at = some 5;
  share_slug = some (codes "party");
  share_count = 2;
}

abbrev pub template : PlatformTemplate
template = record {
  id = 3;
  title = codes "Meetup";
  category = codes "meetups";
  canvas_data = none;
  thumbnail_url = none;
  is_active = true;
  total_badges_made = 4;
  created_at = 0;
}

abbrev pub note : Notification
note = record {
  id = 1010;
  user_id = 1;
  kind = badge_creation;
  title = codes "New";
  body = codes "A badge";
  is_read = false;
  extra_data = none;
  created_at = 0;
}

abbrev pub tag : BadgeHashtag
tag = record { id = 1020; badge_id = 1005; hashtag = codes "fun" }

abbrev pub tables : Db env
tables = record {
  badges = draft ∷ shown ∷ [];
  hashtags = tag ∷ [];
  templates = template ∷ [];
  notifications = note ∷ [];
  preferences = [];
}

abbrev pub start : World env
start = record { db = tables; durable = tables; clock = 1000000; draws = 0; calls = 0; assets = [] }
