-- ===== src/Policy/Disclosure/Classified.antt =====
-- src/hotmem/policy.py: whether a row is private, what happens to it then, and the parts of a row
-- that are parsed.
use Prim.Native.Char.{code}
use hot_mem.Prelude.{
  String, Bool, false, ◌&&◌, ◌||◌, Option, none, some, List, [], ◌∷◌, if◌then◌else◌, contains,
  or_else, get_or, ◌==◌,
}
use hot_mem.Prelude.Strings.{strip, is_blank}
use hot_mem.Json.{Value, str, obj, arr, bool, null, Items, nil, cons, Fields, end, get, truthy}
use hot_mem.Policy.Platform.{Platform, to_str, str_or_empty}
use hot_mem.Policy.Grants.{SecretAction, ClassificationAction, ShareApproval, allows_row, grants}
use hot_mem.Policy.Context.{CallerContext, binding}

abbrev pub private_classifications : List String
private_classifications = "private" ∷ "secret" ∷ "confidential" ∷ "restricted" ∷ []

abbrev pub is_private_word : String → Bool
is_private_word s = contains private_classifications s

-- `t.partition(":")`, or `none` where there is no colon.
abbrev pub partition : String → Option (String × String)
partition String.[] = none
partition (String.◌∷◌ c s) =
    let later = partition s in
    if code c == 58
    then some ("", s)
    else elim later [ none ↦ none | some (before, after) ↦ some (String.◌∷◌ c before, after) ]

abbrev pub tag_keys : List String
tag_keys = "classification" ∷ "visibility" ∷ "sensitivity" ∷ "access" ∷ "scope" ∷ []

abbrev pub is_private_tag : String → Bool
is_private_tag t = is_private_word t || elim (partition t) [
  | none ↦ false
  | some (key, value) ↦ contains tag_keys (strip key) && is_private_word (strip value)
]

module _ (p : Platform) where
  abbrev pub any_private_tag : Items → Bool
  any_private_tag nil = false
  any_private_tag (cons tag rest) =
      is_private_tag (p.lower (strip (to_str p tag))) || any_private_tag rest

  unfoldable pub is_private_classified : Fields → Items → Bool
  is_private_classified meta tags =
      is_private_word (p.lower (strip (str_or_empty p (get "classification" meta))))
      || is_private_word (p.lower (strip (str_or_empty p (get "visibility" meta))))
      || (elim (get "private" meta) [ bool b ↦ b | _ ↦ false ])
      || any_private_tag tags

  -- The first approval that allows the row.
  abbrev pub matched_share :
      CallerContext → Fields → String → List ShareApproval → Option ShareApproval
  matched_share c row operation [] = none
  matched_share c row operation (s ∷ rest) =
      let later = matched_share c row operation rest in
      if allows_row p s row c.caller_id operation then some s else later

  unfoldable pub effective_disclosure_actions :
      CallerContext → Fields → String → SecretAction × ClassificationAction
  effective_disclosure_actions c row operation = elim (binding c) [
    | none ↦ (SecretAction.allow, ClassificationAction.allow)
    | some cred ↦ elim (matched_share c row operation cred.share_approvals) [
      | none ↦ (
        get_or cred.secret_action SecretAction.allow,
        get_or cred.private_classification_action ClassificationAction.allow,
      )
      | some share ↦
          let direct = grants cred operation (str_or_empty p (get "namespace" row)) in
          (
            get_or (or_else share.secret_action cred.secret_action)
                (if direct then SecretAction.allow else c.policy_default_secret_action),
            get_or (or_else share.private_classification_action cred.private_classification_action)
                (if direct
                  then ClassificationAction.allow
                  else c.policy_default_private_classification_action),
          )
    ]
  ]

  -- `metadata`, or the parsed `metadata_json`.
  unfoldable pub meta_of : Fields → Fields
  meta_of row = elim (get "metadata" row) [
    | obj d ↦ d
    | _ ↦ elim (get "metadata_json" row) [
      | str s ↦ if is_blank s then end else elim (p.loads s) [ some (obj d) ↦ d | _ ↦ end ]
      | _ ↦ end
    ]
  ]

  unfoldable pub tags_of : Fields → Items
  tags_of row = elim (get "tags" row) [
    | arr l ↦ l
    | str s ↦ if is_blank s then nil else elim (p.loads s) [ some (arr l) ↦ l | _ ↦ nil ]
    | _ ↦ nil
  ]

  unfoldable pub provenance_of : Fields → Value
  provenance_of out = elim (get "provenance" out) [
    | null ↦ elim (get "provenance_json" out) [
      | str s ↦ elim (p.loads s) [ some (obj d) ↦ obj d | some (arr l) ↦ arr l | _ ↦ null ]
      | _ ↦ null
    ]
    | v ↦ v
  ]

  -- The tags as a list or a dictionary; other values hold nothing to redact.
  abbrev pub tags_value : Value → Value
  tags_value (arr l) = arr l
  tags_value (obj d) = obj d
  tags_value (str s) =
      if is_blank s
      then null
      else elim (p.loads s) [ some (obj d) ↦ obj d | some (arr l) ↦ arr l | _ ↦ null ]
  tags_value v = null

  abbrev pub row_id_of : Fields → String
  row_id_of row =
      if truthy (get "id" row)
      then to_str p (get "id" row)
      else str_or_empty p (get "memory_id" row)
