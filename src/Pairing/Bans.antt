-- ===== src/Pairing/Bans.antt =====
-- `IsConnectionTemporarilyBanned`, `BanDurationInSeconds` and `BanConnectionTemporarily`.
use libre_connect.Base.{
  same_text, same_text_refl, ℕ, ◌+◌, ◌-◌, ◌<◌, ◌≡◌, refl, Bool, true, false, [], ◌∷◌, leb, lt→leb,
  if◌then◌else◌, Option, none, some,
}
use libre_connect.Wire.Text.{Text, is_empty}
use libre_connect.Pairing.{Bans}

-- `CONNECTION_RETRY_BAN_DURATION`, five minutes
abbrev pub retry_ban_duration : ℕ
retry_ban_duration = 300000

unfoldable pub find : Text → Bans → Option ℕ
find key [] = none
find key ((other, expiry) ∷ bans) = if same_text other key then some expiry else find key bans

unfoldable pub erase : Text → Bans → Bans
erase key [] = []
erase key ((other, expiry) ∷ bans) =
    let rest = erase key bans in if same_text other key then rest else (other, expiry) ∷ rest

unfoldable pub is_connection_temporarily_banned : ℕ → Text → Bans → Bool × Bans
unfolding find erase
is_connection_temporarily_banned now key bans =
    if is_empty key then (false, bans) else found (find key bans)
  where
    found : Option ℕ → Bool × Bans
    found none = (false, bans)
    found (some expiry) = if leb expiry now then (false, erase key bans) else (true, bans)

unfoldable pub ban_duration : ℕ → Text → Bans → ℕ × Bans
unfolding find erase
ban_duration now key bans = if is_empty key then (0, bans) else found (find key bans)
  where
    found : Option ℕ → ℕ × Bans
    found none = (0, bans)
    found (some expiry) = if leb expiry now then (0, erase key bans) else (expiry - now, bans)

unfoldable pub ban_connection_temporarily : ℕ → Text → Bans → Bans
unfolding erase
ban_connection_temporarily now key bans =
    if is_empty key then bans else (key, now + retry_ban_duration) ∷ erase key bans

-- A ban holds for five minutes.
pub banned_lem :
    (then' now : ℕ) (key : Text) (bans : Bans)
    → is_empty key ≡ false
    → now < then' + retry_ban_duration
    → (is_connection_temporarily_banned now key (ban_connection_temporarily then' key bans)
        ≡ (true, ban_connection_temporarily then' key bans))
      × (ban_duration now key (ban_connection_temporarily then' key bans)
          ≡ (then' + retry_ban_duration - now, ban_connection_temporarily then' key bans))
unfolding is_connection_temporarily_banned ban_duration ban_connection_temporarily find
banned_lem then' now key bans e l =
    rw (e, same_text_refl key, lt→leb now (then' + retry_ban_duration) l) (refl, refl)
