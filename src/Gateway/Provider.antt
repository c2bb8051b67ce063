-- ===== src/Gateway/Provider.antt =====
-- src/runtime/provider_router.py: `select_provider_from_query`. `parse_qs` and the Unicode tables are
-- arguments.
use phantom_runtime_lite.Prelude.{Option, none, some, List, [], ◌∷◌, contains, if◌then◌else◌}
use phantom_runtime_lite.Conversation.Text.{Text, codes, Unicode, text_eq, strip}

abbrev pub supported_providers : List Text
supported_providers = codes "openai" ∷ codes "gemini" ∷ []

pub data Rejection : Type 0 where
  missing_provider : Rejection
  unknown_provider : Text → Rejection

pub data Selection : Type 0 where
  selected : Text → Selection
  rejected : Rejection → Selection

unfoldable pub check_supported : Text → Selection
check_supported provider =
    if contains supported_providers provider
    then selected provider
    else rejected (unknown_provider provider)

unfoldable pub check_stripped : Unicode → Text → Selection
unfolding check_supported
check_stripped u [] = rejected missing_provider
check_stripped u (c ∷ cs) = check_supported (u.lower (c ∷ cs))

-- The values that `parse_qs` finds for the key `provider`, if any.
unfoldable pub select_values : Unicode → Option (List Text) → Selection
unfolding check_stripped
select_values u none = rejected missing_provider
select_values u (some []) = rejected missing_provider
select_values u (some (value ∷ more)) = check_stripped u (strip u value)

unfoldable pub select_provider_from_query : Unicode → (Text → Option (List Text)) → Text → Selection
unfolding select_values
select_provider_from_query u provider_values query = select_values u (provider_values query)
