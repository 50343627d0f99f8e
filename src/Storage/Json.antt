-- ===== src/Storage/Json.antt =====
-- subagentbridge/storage/audit_ledger.py: payloads of events, and `_scrub`, which redacts them.
use Prim.Native.String.{String}
use subagent_bridge.Prelude.{ℕ, Bool, List, [], ◌∷◌, has, if◌then◌else◌, ◌==◌}
use subagent_bridge.Prelude.Exec.{Result, ok, err, value_error}
use subagent_bridge.Prelude.Int.{ℤ}

-- A Python value as `_scrub` tells values apart; `other` is any other type, and a key that is not
-- a text is `none`. A float is the text that `repr` writes for it.
mutual
  pub data Json : Type 0 where
    null : Json
    boolean : Bool → Json
    integer : ℤ → Json
    float : String → Json
    text : String → Json
    array : Items → Json
    object : Fields → Json
    other : Json

  pub data Items : Type 0 where
    no_items : Items
    item : Json → Items → Items

  pub data Fields : Type 0 where
    no_fields : Fields
    field : String → Json → Fields → Fields
    odd_key : Fields → Fields

-- What the ledger takes from Python: str.lower, json.dumps as `_canonical` calls it (ValueError on
-- NaN and the infinities), and the hexadecimal SHA-256 of a text.
pub record Codec : Type 0 where
  pub lower : String → String
  pub dumps : Json → Result String
  -- The same of the list [version, stream, seq, key, kind, payload_json, prev_sha], which has no float.
  pub dumps_row : ℕ → String → ℕ → String → String → String → String → String
  -- json.loads of a payload that the ledger wrote
  pub loads : String → Json
  pub sha256 : String → String

abbrev private_keys : List String
private_keys =
    "api_key" ∷ "authorization" ∷ "access_token" ∷ "refresh_token" ∷ "secret" ∷ "password"
    ∷ "credential" ∷ "credentials" ∷ "private_key" ∷ []

-- `s.replace("-", "_")`
abbrev underscored : String → String
underscored String.[] = String.[]
underscored (String.◌∷◌ c s) =
    let rest = underscored s in
    if String.◌∷◌ c String.[] == "-" then String.◌∷◌ "_" rest else String.◌∷◌ c rest

abbrev and_item : Result Json → Result Items → Result Items
and_item (ok v) (ok vs) = ok (item v vs)
and_item (ok v) (err e) = err e
and_item (err e) vs = err e

abbrev and_field : String → Result Json → Result Fields → Result Fields
and_field k (ok v) (ok vs) = ok (field k v vs)
and_field k (ok v) (err e) = err e
and_field k (err e) vs = err e

abbrev as_array : Result Items → Result Json
as_array (ok vs) = ok (array vs)
as_array (err e) = err e

abbrev as_object : Result Fields → Result Json
as_object (ok vs) = ok (object vs)
as_object (err e) = err e

module _ (codec : Codec) where
  unfoldable pub is_private : String → Bool
  is_private key = has (underscored (codec.lower key)) private_keys

  unfoldable mutual
    pub scrub : Json → Result Json
    scrub (array vs) = as_array (scrub_items vs)
    scrub (object vs) = as_object (scrub_fields vs)
    scrub other = err value_error
    scrub v = ok v

    scrub_items : Items → Result Items
    scrub_items no_items = ok no_items
    scrub_items (item v vs) = and_item (scrub v) (scrub_items vs)

    scrub_fields : Fields → Result Fields
    scrub_fields no_fields = ok no_fields
    scrub_fields (field k v vs) =
        let rest = scrub_fields vs in
        let value = scrub v in
        if is_private k then and_field k (ok (text "[REDACTED]")) rest else and_field k value rest
    scrub_fields (odd_key vs) = err value_error
