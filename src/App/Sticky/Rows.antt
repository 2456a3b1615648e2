-- ===== src/App/Sticky/Rows.antt =====
-- The statements of internal/app/sticky_proxy.go on account_network_identities.
use digital_ocean_bot.Prelude.{
  ℕ, String, Bool, true, false, ◌&&◌, ◌||◌, not, Option, none, some, List, [], ◌∷◌, ◌++◌, str_eq,
  ◌==◌, if◌then◌else◌,
}
use digital_ocean_bot.Text.{codes}
use digital_ocean_bot.App.Repository.{Identity, World, same_column, text_of}
use digital_ocean_bot.App.Sticky.Observe.{Net, StickyGeo, locale_for_country}

-- UPDATE ... WHERE account_id=$1
unfoldable pub update_identity : String → (Identity → Identity) → List Identity → List Identity
update_identity id f [] = []
update_identity id f (i ∷ is) =
    (if str_eq i.account_id id then f i else i) ∷ update_identity id f is

unfoldable pub has_identity : String → List Identity → Bool
has_identity id [] = false
has_identity id (i ∷ is) = str_eq i.account_id id || has_identity id is

-- INSERT ... ON CONFLICT(account_id) DO UPDATE
unfoldable pub upsert_identity :
    String → Identity → (Identity → Identity) → List Identity → List Identity
unfolding update_identity has_identity
upsert_identity id fresh f is =
    if has_identity id is then update_identity id f is else is ++ fresh ∷ []

abbrev pub on_identities : (List Identity → List Identity) → World → World
on_identities f w = record w { identities = f w.identities }

abbrev pub clear_sticky : Identity → Identity
clear_sticky i = record i {
  sticky_session = none;
  fallback_active = false;
  rotation_started_at = none;
}

-- A new row with the defaults of the table.
abbrev pub fresh_identity : String → Identity
fresh_identity id = record {
  account_id = id;
  exit_ip = none;
  subnet_key = none;
  country = none;
  timezone = "UTC";
  locale = "en-US";
  asn = none;
  sticky_session = none;
  preferred_country = none;
  preferred_country_code = none;
  fallback_active = false;
  rotation_started_at = none;
  last_health_ok = none;
}

-- `COALESCE(NULLIF(a,''),b)`
abbrev pub or_else : Option String → String → Option String
or_else a b = if str_eq (text_of a) "" then some b else a

-- replace(gen_random_uuid()::text,'-','')
unfoldable pub without_dashes : List ℕ → List ℕ
without_dashes [] = []
without_dashes (c ∷ s) = let rest = without_dashes s in if c == 45 then rest else c ∷ rest

abbrev pub new_session : World → List ℕ
new_session w = without_dashes (codes (w.sql.new_id w.sql.calls))

-- Another account has the address or its subnet.
unfoldable pub taken : Net → String → String → List Identity → Bool
taken net id ip [] = false
taken net id ip (i ∷ is) =
    not (str_eq i.account_id id)
      && (same_column i.exit_ip (some (net.host ip))
          || same_column i.subnet_key (some (net.subnet ip)))
    || taken net id ip is

abbrev pub or_keep : String → String → String
or_keep new old = if str_eq new "" then old else new

-- The row with an address that was just observed, in good health and out of rotation.
unfoldable pub with_address : Net → StickyGeo → Option (List ℕ) → Bool → Identity → Identity
unfolding locale_for_country
with_address net geo session fallback i = record i {
  sticky_session = session;
  exit_ip = some (net.host geo.ip);
  subnet_key = some (net.subnet geo.ip);
  country = some geo.country;
  timezone = or_keep geo.timezone i.timezone;
  locale = locale_for_country net geo.country_code;
  last_health_ok = some true;
  rotation_started_at = none;
  fallback_active = fallback;
}
