-- ===== src/Approvals/Spec.antt =====
-- What an approval stores of an operation: `approvalSpec` of
-- src/operations/approvals/approval-gates.ts, and the comparison before the execution.
use Prim.Native.String
use freeipa_admin_dashboard.Base.{
  ℕ, ltb, String, Bool, not, Option, none, some, List, [], ◌∷◌, ◌++◌, map, str_eq, if◌then◌else◌,
  keep, take, length, is_blank,
}
use freeipa_admin_dashboard.Base.Json.{
  Value, null, bool, nat, other_number, str, array, object, get,
}
use freeipa_admin_dashboard.Base.Language.{Language, shown}
use freeipa_admin_dashboard.Approvals.Policy.{clean_text}

-- What is read of a `RouteField`: `is_password` is `type === "password"`.
pub record Field : Type 0 where
  pub key : String
  pub label : String
  pub is_password : Bool

-- What is read of a `CatalogEvent`.
pub record CatalogEvent : Type 0 where
  pub id : String
  pub schema_version : Option Value
  pub fields : List Field

-- `ApprovalSpec`.
pub record Spec : Type 0 where
  pub event_id : String
  pub schema_version : String
  pub values : List (String × Value)
  pub targets : List String
  pub secret_fields : List String
  pub parent_run_id : String

pub record SummaryValue : Type 0 where
  pub key : String
  pub label : String
  pub value : String

-- `PublicApproval["summary"]`.
pub record Summary : Type 0 where
  pub subject : String
  pub targets : List String
  pub values : List SummaryValue
  pub hidden_secrets : ℕ
  pub secret_fields : List (String × String)

-- The four lists that the loop over the fields fills.
pub record Collected : Type 0 where
  pub safe_values : List (String × Value)
  pub secret_fields : List String
  pub secret_field_labels : List (String × String)
  pub summary_values : List SummaryValue

-- `object[key] = value`.
unfoldable pub put_value : String → Value → List (String × Value) → List (String × Value)
put_value k v [] = (k, v) ∷ []
put_value k v ((n, w) ∷ r) =
    let rest = put_value k v r in if str_eq n k then (k, v) ∷ r else (n, w) ∷ rest

module _ (js : Language) where
  unfoldable pub safe_value : Value → String
  unfolding clean_text
  safe_value (bool b) = js.show (bool b)
  safe_value (nat n) = js.show (nat n)
  safe_value other_number = js.show other_number
  safe_value (str s) = clean_text js (some (str s)) 240
  safe_value null = clean_text js (some (str (js.stringify null))) 240
  safe_value (array vs) = clean_text js (some (str (js.stringify (array vs)))) 240
  safe_value (object fs) = clean_text js (some (str (js.stringify (object fs)))) 240

  -- A secret is given: it is neither missing nor null nor the empty text.
  unfoldable pub is_given_secret : Option Value → Bool
  is_given_secret v = not (is_blank (shown js v))

  unfoldable pub collect_secret : Field → Option Value → Collected → Collected
  unfolding clean_text is_given_secret
  collect_secret f value c =
      if is_given_secret value
      then record c {
        secret_fields = c.secret_fields ++ (f.key ∷ []);
        secret_field_labels =
            c.secret_field_labels ++ ((f.key, clean_text js (some (str f.label)) 120) ∷ []);
      }
      else c

  unfoldable pub collect_value : Field → Option Value → Collected → Collected
  unfolding clean_text put_value safe_value
  collect_value f none c = c
  collect_value f (some v) c = record c {
    safe_values = put_value f.key v c.safe_values;
    summary_values =
        if ltb (length c.summary_values) 16
        then c.summary_values
          ++ (record {
            key = f.key;
            label = clean_text js (some (str f.label)) 120;
            value = safe_value v;
          }
              ∷ [])
        else c.summary_values;
  }

  unfoldable pub collect : List (String × Value) → Collected → List Field → Collected
  unfolding get collect_secret collect_value
  collect values c [] = c
  collect values c (f ∷ fs) =
      collect values
        (if f.is_password
          then collect_secret f (get f.key values) c
          else collect_value f (get f.key values) c)
        fs

  unfoldable pub nothing_collected : Collected
  nothing_collected = record {
    safe_values = [];
    secret_fields = [];
    secret_field_labels = [];
    summary_values = [];
  }

  unfoldable pub normalized_targets : List String → List String
  unfolding clean_text
  normalized_targets targets =
      take 100 (keep (λ t. not (is_blank t)) (map (λ t. clean_text js (some (str t)) 240) targets))

  abbrev joined : List String → String
  joined [] = ""
  joined (t ∷ []) = t
  joined (t ∷ u ∷ r) = String.◌++◌ t (String.◌++◌ ", " (joined (u ∷ r)))

  abbrev first_value : List SummaryValue → String
  first_value [] = ""
  first_value (v ∷ r) = v.value

  -- `a || b`.
  abbrev or_text : String → String → String
  or_text a b = if is_blank a then b else a

  unfoldable pub approval_spec :
      CatalogEvent → List (String × Value) → List String → String → Spec × Summary
  unfolding collect nothing_collected normalized_targets
  approval_spec event values targets parent_run_id =
      let c = collect values nothing_collected event.fields in
      let chosen = normalized_targets targets in
      (
        record {
          event_id = event.id;
          schema_version = shown js event.schema_version;
          values = c.safe_values;
          targets = chosen;
          secret_fields = c.secret_fields;
          parent_run_id = js.slice 160 parent_run_id;
        },
        record {
          subject =
              or_text (first_value c.summary_values) (or_text (js.slice 240 (joined chosen)) "—");
          targets = chosen;
          values = c.summary_values;
          hidden_secrets = length c.secret_fields;
          secret_fields = c.secret_field_labels;
        },
      )

  -- `fingerprint` is SHA-256 of the canonical JSON text.
  unfoldable pub approval_execution_matches :
      (Spec → String) → Spec → CatalogEvent → List (String × Value) → List String → Bool
  unfolding approval_spec
  approval_execution_matches fingerprint spec event values targets =
      str_eq (fingerprint (approval_spec event values targets spec.parent_run_id).0)
        (fingerprint spec)
