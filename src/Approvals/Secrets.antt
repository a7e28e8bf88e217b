-- ===== src/Approvals/Secrets.antt =====
-- `approvalSpec` of src/operations/approvals/approval-gates.ts on values that differ in the fields of
-- passwords.
use freeipa_admin_dashboard.Base.{
  String, ◌≡◌, refl, ap, ◌∙◌, Bool, true, false, Option, List, [], ◌∷◌, All, if◌then◌else◌,
}
use freeipa_admin_dashboard.Base.Json.{Value, get}
use freeipa_admin_dashboard.Base.Language.{Language}
use freeipa_admin_dashboard.Approvals.Spec.{
  Field, CatalogEvent, Collected, is_given_secret, collect_secret, collect_value, collect,
  nothing_collected, approval_spec,
}

-- Two operations give a field the same value, or where it is a password both or neither give one.
unfoldable pub AgreeOn : Language → List (String × Value) → List (String × Value) → Field → Type 0
AgreeOn js a b f =
    if f.is_password
    then is_given_secret js (get f.key a) ≡ is_given_secret js (get f.key b)
    else get f.key a ≡ get f.key b

module _ (js : Language) (a b : List (String × Value)) where
  collect_secret-given :
      (f : Field) (v w : Option Value) (c : Collected)
      → is_given_secret js v ≡ is_given_secret js w
      → collect_secret js f v c ≡ collect_secret js f w c
  unfolding collect_secret
  collect_secret-given f v w c h = rw (h) refl

  collect-agree :
      (c : Collected) (fs : List Field)
      → All (AgreeOn js a b) fs
      → collect js a c fs ≡ collect js b c fs
  unfolding collect AgreeOn
  collect-agree c [] h = refl
  collect-agree c (f ∷ fs) (h, k) =
      ap (λ d. collect js a d fs) (one f.is_password h)
      ∙ collect-agree
          (if f.is_password
            then collect_secret js f (get f.key b) c
            else collect_value js f (get f.key b) c)
          fs k
    where
      one :
          (t : Bool)
          → (if t
              then is_given_secret js (get f.key a) ≡ is_given_secret js (get f.key b)
              else get f.key a ≡ get f.key b)
          → (if t then collect_secret js f (get f.key a) c else collect_value js f (get f.key a) c)
            ≡ (if t
                then collect_secret js f (get f.key b) c
                else collect_value js f (get f.key b) c)
      one true e = collect_secret-given f (get f.key a) (get f.key b) c e
      one false e = ap (λ v. collect_value js f v c) e

  -- Two requests of an operation that differ in nothing but the text of given passwords leave the
  -- same specification and the same summary.
  pub approval_spec-secret :
      (event : CatalogEvent) (targets : List String) (parent_run_id : String)
      → All (AgreeOn js a b) event.fields
      → approval_spec js event a targets parent_run_id
        ≡ approval_spec js event b targets parent_run_id
  unfolding approval_spec
  approval_spec-secret event targets parent_run_id h =
      rw (collect-agree (nothing_collected js) event.fields h) refl
