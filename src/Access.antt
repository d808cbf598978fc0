-- ===== src/Access.antt =====
-- config_access.go: reads of a materialized configuration by path, with the environment of the process as a
-- fallback, and their conversions to int and bool. Parameters: the environment, the hooks, the context,
-- `strings.ToUpper`, `strings.ToLower` and `strings.TrimSpace`. An int has 64 bits, and so an int64 is
-- one. Metrics are left out, and copies are the values themselves.
pub mod Lookups
pub mod Numbers
use confii_go.Base.{
  ℕ, zero, suc, ◌+◌, ◌-◌, ◌*◌, ◌/◌, ◌%◌, ◌^◌, Bool, true, false, not, ◌&&◌, ◌||◌, Option, none,
  some, List, [], ◌∷◌, ◌++◌, ◌==◌, ltb, leb, keep,
}
use confii_go.Base.{Text, codes, text_eq, has_prefix, if◌then◌else◌}
use confii_go.Base.Split.{is_empty}
use confii_go.Base.Sort.{sort_texts}
use confii_go.Base.Int.{ℤ, pos, negsuc}
use confii_go.Value.{
  Value, Fields, null, boolean, integer, float, text, sequence, mapping, nil_mapping,
}
use confii_go.Configmap.{dot, get, has}
use confii_go.Dictutil.Flatten.{flat_keys}
use confii_go.Typecoerce.{negate}

pub data AccessError (E : Type 0) : Type 0 where
  access_canceled : AccessError E
  -- the error of a hook, as it is
  hook_failed : E → AccessError E
  -- with the paths that there are
  not_found : Text → List Text → AccessError E
  non_finite : AccessError E
  fractional : AccessError E
  int_overflow : AccessError E
  not_convertible : AccessError E

-- `errors.Is(err, ErrConfigNotFound)`, by the answer for an error of a hook.
abbrev pub says_not_found : {E : Type 0} → (E → Bool) → AccessError E → Bool
says_not_found is_not_found (not_found path keys) = true
says_not_found is_not_found (hook_failed e) = is_not_found e
says_not_found is_not_found e = false

pub data Access (E : Type 0) (A : Type 0) : Type 0 where
  gave : A → Access E A
  denied : AccessError E → Access E A

-- What the hooks make of a value.
pub data Hooked (E : Type 0) : Type 0 where
  hooked : Value → Hooked E
  hook_error : E → Hooked E

-- The options and the surroundings of a read.
pub record Lookup : Type 0 where
  pub sysenv_fallback : Bool
  pub env_prefix : Text
  pub to_upper : Text → Text
  pub lookup_env : Text → Option Text

-- `strings.ReplaceAll(keyPath, ".", "_")`
unfoldable pub dots_replaced : Text → Text
dots_replaced [] = []
dots_replaced (c ∷ s) = (if c == dot then b'_' else c) ∷ dots_replaced s

-- The name of the environment variable of a path.
unfoldable pub sysenv_name : Lookup → Text → Text
sysenv_name o path =
    let name = o.to_upper (dots_replaced path) in
    if is_empty o.env_prefix then name else o.to_upper o.env_prefix ++ (b'_' ∷ name)

unfoldable pub lookup_sysenv : Lookup → Text → Option Text
lookup_sysenv o path = o.lookup_env (sysenv_name o path)

abbrev pub is_found {ℓ} : {A : Type ℓ} → Option A → Bool
is_found none = false
is_found (some a) = true

-- Has
unfoldable pub has_path : Lookup → Option Fields → Text → Bool
has_path o env_config path =
    if has env_config path
    then true
    else if o.sysenv_fallback
    then is_found (lookup_sysenv o path)
    else false

module _ {E : Type 0} (o : Lookup) (process : Text → Value → Hooked E) where
  abbrev pub after_hooks : Hooked E → Access E Value
  after_hooks (hooked v) = gave v
  after_hooks (hook_error e) = denied (hook_failed e)

  -- A path that the configuration lacks.
  unfoldable pub get_sysenv : Option Fields → Text → Option Text → Access E Value
  get_sysenv env_config path none = denied (not_found path (flat_keys env_config))
  get_sysenv env_config path (some s) = after_hooks (process path (text s))

  unfoldable pub get_missing : Option Fields → Text → Access E Value
  get_missing env_config path =
      get_sysenv env_config path (if o.sysenv_fallback then lookup_sysenv o path else none)

  unfoldable pub get_with_context : Bool → Option Fields → Text → Access E Value
  get_with_context canceled env_config path =
      if canceled
      then denied access_canceled
      else elim (get env_config path) [ none ↦ get_missing env_config path | some v ↦ gave v ]

-- `strings.HasSuffix(matchPrefix, ".")`
unfoldable pub ends_with_dot : Text → Bool
ends_with_dot [] = false
ends_with_dot (c ∷ []) = c == dot
ends_with_dot (c ∷ d ∷ s) = ends_with_dot (d ∷ s)

-- Keys
unfoldable pub paths_under : Option Fields → Text → List Text
paths_under env_config [] = sort_texts (flat_keys env_config)
paths_under env_config (c ∷ p) =
    let match_prefix = if ends_with_dot (c ∷ p) then c ∷ p else (c ∷ p) ++ (dot ∷ []) in
    sort_texts (keep (λ k. has_prefix k match_prefix) (flat_keys env_config))

-- The fields of the bits of a float64.
abbrev pub is_negative : ℕ → Bool
is_negative bits = leb (2 ^ 63) bits

abbrev pub exponent : ℕ → ℕ
exponent bits = (bits / 2 ^ 52) % 2048

abbrev pub fraction : ℕ → ℕ
fraction bits = bits % 2 ^ 52

-- The absolute value times 2^1075.
unfoldable pub scaled : ℕ → ℕ
scaled bits =
    if exponent bits == 0 then fraction bits * 2 else (2 ^ 52 + fraction bits) * 2 ^ exponent bits

-- The absolute value of a float without a fractional part.
unfoldable pub magnitude : ℕ → ℕ
magnitude bits = scaled bits / 2 ^ 1075

abbrev pub signed : Bool → ℕ → ℤ
signed true n = negate n
signed false n = pos n

-- `int(v)` for such a float. Go leaves it to the implementation where the value is no int.
unfoldable pub int_of_float : (ℕ → ℤ) → ℕ → ℤ
int_of_float unspecified bits =
    if is_negative bits || ltb (magnitude bits) (2 ^ 63)
    then signed (is_negative bits) (magnitude bits)
    else unspecified bits

-- The spellings of a bool.
unfoldable pub bool_spelled : Text → Option Bool
bool_spelled s =
    if text_eq s (codes "true")
      || (text_eq s (codes "1") || (text_eq s (codes "yes") || text_eq s (codes "on")))
    then some true
    else if text_eq s (codes "false")
        || (text_eq s (codes "0") || (text_eq s (codes "no") || text_eq s (codes "off")))
    then some false
    else none

abbrev pub bool_of_int : ℤ → Option Bool
bool_of_int (negsuc n) = none
bool_of_int (pos n) = if n == 0 then some false else if n == 1 then some true else none

-- The floats 0, -0 and 1.
abbrev pub bool_of_float : ℕ → Option Bool
bool_of_float bits =
    if bits == 0 || bits == 2 ^ 63
    then some false
    else if bits == 1023 * 2 ^ 52
    then some true
    else none

module _ {E : Type 0} where
  -- The case of a float64 in GetInt. `float64(math.MaxInt)` is 2^63, and so is `-float64(math.MinInt)`.
  unfoldable pub get_int_float : (ℕ → ℤ) → ℕ → Access E ℤ
  get_int_float unspecified bits =
      if exponent bits == 2047
      then denied non_finite
      else if not (scaled bits % 2 ^ 1075 == 0)
      then denied fractional
      else if ltb (2 ^ 63) (magnitude bits)
      then denied int_overflow
      else gave (int_of_float unspecified bits)

  -- GetInt, on what Get returned.
  unfoldable pub get_int : (ℕ → ℤ) → Access E Value → Access E ℤ
  get_int unspecified (denied e) = denied e
  get_int unspecified (gave (integer i)) = gave i
  get_int unspecified (gave (float bits)) = get_int_float unspecified bits
  get_int unspecified (gave v) = denied not_convertible

  -- `GetIntOr`; GetOr, GetStringOr, GetBoolOr and GetFloat64Or are the same on their types.
  unfoldable pub or_default : {A : Type 0} → A → Access E A → A
  or_default default (gave a) = a
  or_default default (denied e) = default

  abbrev found_bool : Option Bool → Access E Bool
  found_bool none = denied not_convertible
  found_bool (some b) = gave b

  -- GetBool, on what Get returned. The first argument is `strings.ToLower(strings.TrimSpace(·))`.
  unfoldable pub get_bool : (Text → Text) → Access E Value → Access E Bool
  get_bool fold (denied e) = denied e
  get_bool fold (gave (boolean b)) = gave b
  get_bool fold (gave (text s)) = found_bool (bool_spelled (fold s))
  get_bool fold (gave (integer i)) = found_bool (bool_of_int i)
  get_bool fold (gave (float bits)) = found_bool (bool_of_float bits)
  get_bool fold (gave v) = denied not_convertible
