-- ===== src/Redaction.antt =====
-- Redactor of observability/logging.py. The regular expressions and `str.replace` are Python's and
-- so are arguments.
use travel_web_api.Json.{Json, Items, Fields, JsonObject}
use travel_web_api.Prelude.{
  leb, if◌then◌else◌, string_eq, nat_eq, ◌==◌, ℕ, String, Bool, not, ◌&&◌, List, [], ◌∷◌,
}

-- `_SENSITIVE_KEY.search(key)` as a test, `_EMAIL.sub` and `_PHONE.sub` on a text, and
-- `len(text)` and `text.replace(secret, "[REDACTED_SECRET]")`.
pub record Patterns : Type 0 where
  pub is_sensitive : String → Bool
  pub sub_email : String → String
  pub sub_phone : String → String
  pub length_of : String → ℕ
  pub replace_secret : String → String → String

-- `if key and _SENSITIVE_KEY.search(key)`
abbrev pub is_hidden : Patterns → String → Bool
is_hidden pt k = not (k == "") && pt.is_sensitive k

-- `sorted((value for value in secret_values if value), key=len, reverse=True)`, which keeps the
-- order of equal lengths.
abbrev pub insert_secret : Patterns → String → List String → List String
insert_secret pt s [] = s ∷ []
insert_secret pt s (t ∷ ts) =
    let rest = insert_secret pt s ts in
    if leb (pt.length_of t) (pt.length_of s) then s ∷ t ∷ ts else t ∷ rest

abbrev pub sorted_secrets : Patterns → List String → List String
sorted_secrets pt [] = []
sorted_secrets pt (s ∷ ss) =
    let rest = sorted_secrets pt ss in if s == "" then rest else insert_secret pt s rest

abbrev pub replace_secrets : Patterns → List String → String → String
replace_secrets pt [] s = s
replace_secrets pt (x ∷ xs) s = replace_secrets pt xs (pt.replace_secret x s)

unfoldable pub redact_text : Patterns → List String → String → String
redact_text pt secrets s = replace_secrets pt secrets (pt.sub_phone (pt.sub_email s))

unfoldable mutual
  pub redact_json : Patterns → List String → Json → Json
  redact_json pt secrets (Json.text s) = Json.text (redact_text pt secrets s)
  redact_json pt secrets (Json.arr xs) = Json.arr (redact_items pt secrets xs)
  redact_json pt secrets (Json.obj fs) = Json.obj (redact_fields pt secrets fs)
  redact_json pt secrets v = v

  pub redact_items : Patterns → List String → Items → Items
  redact_items pt secrets Items.nil = Items.nil
  redact_items pt secrets (Items.cons v xs) =
      Items.cons (redact_json pt secrets v) (redact_items pt secrets xs)

  pub redact_fields : Patterns → List String → Fields → Fields
  redact_fields pt secrets Fields.end = Fields.end
  redact_fields pt secrets (Fields.field k v fs) =
      let redacted = redact_json pt secrets v in
      Fields.field k (if is_hidden pt k then Json.text "[REDACTED]" else redacted)
        (redact_fields pt secrets fs)

-- A dict at the top.
unfoldable pub redact_object : Patterns → List String → JsonObject → JsonObject
redact_object pt secrets [] = []
redact_object pt secrets ((k, v) ∷ d) =
    (k, if is_hidden pt k then Json.text "[REDACTED]" else redact_json pt secrets v)
    ∷ redact_object pt secrets d

unfoldable pub redact : Patterns → List String → JsonObject → JsonObject
redact pt secret_values d = redact_object pt (sorted_secrets pt secret_values) d
