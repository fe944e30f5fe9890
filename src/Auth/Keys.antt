-- ===== src/Auth/Keys.antt =====
-- The API keys (src/core/auth/api_key_manager.go): the table that the configuration fills, and the
-- look-up of a key. The map holds pointers into the configuration's slice, which nobody writes.
use Prim.Native.String.{len, String as Text, [] as empty, ◌∷◌ as cons}
use Prim.Native.Char.{code}
use atom_engine.Base.{
  ℕ, ◌+◌, ◌≡◌, refl, ap, ◌∙◌, String, Bool, true, false, ◌&&◌, ◌||◌, Option, none, some, List, [],
  ◌∷◌, Dict, lookup, insert, lookup-insert, length, leb, ltb, str_eq, arith, if◌then◌else◌,
}
use atom_engine.Auth.{ApiKey, has_permission}

-- The loop of `NewAPIKeyManager` and `UpdateAPIKeys`.
unfoldable pub add_keys : List ApiKey → Dict ApiKey → Dict ApiKey
add_keys [] keys = keys
add_keys (k ∷ rest) keys = add_keys rest (insert k.key k keys)

unfoldable pub new_api_key_manager : List ApiKey → Dict ApiKey
unfolding add_keys
new_api_key_manager api_keys = add_keys api_keys []

-- The new table takes the place of the old one.
unfoldable pub update_api_keys : List ApiKey → Dict ApiKey → Dict ApiKey
unfolding add_keys
update_api_keys api_keys keys = add_keys api_keys []

-- Every stored key is compared with the given one; at most one is equal to it.
unfoldable pub validate_api_key : String → Dict ApiKey → Option ApiKey
validate_api_key key keys = if str_eq key "" then none else lookup key keys

-- `none` is the nil pointer.
unfoldable pub validate_permission : Option ApiKey → String → Bool
unfolding has_permission
validate_permission none permission = false
validate_permission (some k) permission = has_permission k.permissions permission

unfoldable pub count_permissions : List String → Dict ℕ → Dict ℕ
count_permissions [] counts = counts
count_permissions (perm ∷ rest) counts =
    count_permissions rest
      (insert perm (elim (lookup perm counts) [ none ↦ 1 | some n ↦ n + 1 ]) counts)

pub record KeyStats : Type 0 where
  pub total_keys : ℕ
  pub permissions : Dict ℕ
  pub keys_with_host_restrictions : ℕ

-- The two loops of `GetAPIKeyStats` over the table.
unfoldable pub key_permissions : Dict ApiKey → Dict ℕ → Dict ℕ
unfolding count_permissions
key_permissions [] counts = counts
key_permissions ((_, k) ∷ rest) counts =
    key_permissions rest (count_permissions k.permissions counts)

unfoldable pub restricted_keys : Dict ApiKey → ℕ
restricted_keys [] = 0
restricted_keys ((_, k) ∷ rest) =
    if ltb 0 (length k.allowed_hosts) then restricted_keys rest + 1 else restricted_keys rest

unfoldable pub get_api_key_stats : Dict ApiKey → KeyStats
unfolding key_permissions restricted_keys
get_api_key_stats keys = record {
  total_keys = length keys;
  permissions = key_permissions keys [];
  keys_with_host_restrictions = restricted_keys keys;
}

abbrev pub between : ℕ → ℕ → ℕ → Bool
between low high n = leb low n && leb n high

abbrev pub is_key_char : ℕ → Bool
is_key_char n =
    between 97 122 n || between 65 90 n || between 48 57 n || between 95 95 n || between 45 45 n

unfoldable pub are_key_chars : Text → Bool
are_key_chars empty = true
are_key_chars (cons c rest) = if is_key_char (code c) then are_key_chars rest else false

unfoldable pub validate_api_key_format : String → Bool
unfolding are_key_chars
validate_api_key_format key = if ltb (len key) 16 then false else are_key_chars key

-- The last entry of a configuration that has the key.
unfoldable pub last_entry : String → List ApiKey → Option ApiKey
last_entry key [] = none
last_entry key (k ∷ rest) =
    let later = last_entry key rest in
    elim later [ none ↦ if str_eq k.key key then some k else none | some found ↦ some found ]

or_else : Option ApiKey → Option ApiKey → Option ApiKey
or_else none o = o
or_else (some k) o = some k

lookup-add_keys :
    (key : String) (api_keys : List ApiKey) (keys : Dict ApiKey)
    → lookup key (add_keys api_keys keys) ≡ or_else (last_entry key api_keys) (lookup key keys)
unfolding add_keys last_entry or_else
lookup-add_keys key [] keys = refl
lookup-add_keys key (k ∷ rest) keys =
    lookup-add_keys key rest (insert k.key k keys) ∙ rw lookup-insert (later (last_entry key rest))
  where
    later :
        (o : Option ApiKey)
        → or_else o (if str_eq k.key key then some k else lookup key keys)
          ≡ or_else
              (elim o [
                | none ↦ if str_eq k.key key then some k else none
                | some found ↦ some found
              ])
              (lookup key keys)
    later none = ground arith
    later (some found) = refl

-- After the configuration is read, a key is valid with the last of the configured entries that have
-- it, and with no other; a key that no entry has, and the empty key, are not valid.
pub validate_api_key-new_api_key_manager :
    (key : String) (api_keys : List ApiKey)
    → validate_api_key key (new_api_key_manager api_keys)
      ≡ (if str_eq key "" then none else last_entry key api_keys)
unfolding validate_api_key new_api_key_manager lookup or_else
validate_api_key-new_api_key_manager key api_keys =
    rw lookup-add_keys
      (ap (λ o. if str_eq key "" then none else o) (whole (last_entry key api_keys)))
  where
    whole : (o : Option ApiKey) → or_else o none ≡ o
    whole none = refl
    whole (some k) = refl
