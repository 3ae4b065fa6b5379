-- ===== src/Organizations.antt =====
-- apps/web/lib/active-org.ts and app/(shell)/settings/sections.ts: the Organization that is shown, and
-- what its members may set. The storage is the text that it holds under its one key; no storage at
-- all is the outer `none`.
use step_by_step.Common.{
  String, ◌==◌, Bool, true, false, ◌||◌, not, List, [], ◌∷◌, map, Option, none, some, option_eq,
  first_of, find, any, ltb, length, filter_by, ◌≡◌, refl, inl, inr, Bool-cases, eq_iff,
}

pub data Role : Type 0 where
  owner admin member : Role

pub record OrganizationMembership : Type 0 where
  pub id : String
  pub name : String
  pub role : Role

pub record OfferedMembership : Type 0 where
  pub id : String
  pub org_name : String
  pub role : Role

pub record Account : Type 0 where
  pub id : String
  pub email : String
  pub display_name : Option String
  pub orgs : List OrganizationMembership
  pub invitations : List OfferedMembership

abbrev pub orgs_of : Option Account → List OrganizationMembership
orgs_of none = []
orgs_of (some me) = me.orgs

abbrev pub first_org : List OrganizationMembership → Option OrganizationMembership
first_org [] = none
first_org (org ∷ orgs) = some org

unfoldable pub active_organization : Option Account → Option String → Option OrganizationMembership
active_organization me remembered =
    first_of (find (λ org. option_eq (some org.id) remembered) (orgs_of me))
      (first_org (orgs_of me))

unfoldable pub offers_a_switcher : Option Account → Bool
offers_a_switcher me = ltb 1 (length (orgs_of me))

abbrev pub Storage : Type 0
Storage = Option (Option String)

unfoldable pub remembered_organization : Storage → Option String
remembered_organization none = none
remembered_organization (some held) = held

unfoldable pub remember_organization : Option String → Storage → Storage
remember_organization org_id none = none
remember_organization org_id (some held) = some org_id

pub record SettingsSection : Type 0 where
  pub label : String
  pub path : String

pub record SettingsGroup : Type 0 where
  pub label : String
  pub sections : List SettingsSection

abbrev pub invitations_path : String
invitations_path = "/settings/organization/invitations"

abbrev pub settings_groups : List SettingsGroup
settings_groups =
    record {
      label = "Account";
      sections =
          record { label = "Account"; path = "/settings/account" }
          ∷ record { label = "Browser extension"; path = "/settings/extension" }
          ∷ [];
    }
    ∷ record {
      label = "Organization";
      sections =
          record { label = "General"; path = "/settings/organization" }
          ∷ record { label = "Members"; path = "/settings/organization/members" }
          ∷ record { label = "Invitations"; path = invitations_path }
          ∷ [];
    }
    ∷ record {
      label = "Vault";
      sections =
          record { label = "Secrets"; path = "/settings/secrets" }
          ∷ record { label = "Saved logins"; path = "/settings/logins" }
          ∷ [];
    }
    ∷ []

abbrev pub manages : Option Role → Bool
manages (some owner) = true
manages (some admin) = true
manages _ = false

unfoldable pub settings_nav : Option Role → List SettingsGroup
settings_nav role =
    map
      (λ group. record {
        label = group.label;
        sections =
            filter_by (λ section. manages role || not (section.path == invitations_path))
              group.sections;
      })
      settings_groups

found_org :
    (id : String) (orgs : List OrganizationMembership)
    → any (λ org. org.id == id) orgs ≡ true
    → (org : OrganizationMembership) × (org.id ≡ id)
      × (find (λ o. option_eq (some o.id) (some id)) orgs ≡ some org)
found_org id [] h = absurd cc
found_org id (org ∷ orgs) h = elim (Bool-cases (org.id == id)) [
  | inl same ↦ (org, (eq_iff org.id id).0 same, rw same refl)
  | inr other ↦ let (chosen, at, e) = found_org id orgs (rw other at h) in (chosen, at, rw other e)
]

-- An Organization of the account that is chosen is the one that is shown from then on.
pub active_organization-remember_organization :
    (me : Account) (id : String) (held : Option String)
    → any (λ org. org.id == id) me.orgs ≡ true
    → (org : OrganizationMembership) × (org.id ≡ id)
      × (active_organization
            (some me)
            (remembered_organization (remember_organization (some id) (some held)))
          ≡ some org)
unfolding active_organization remembered_organization remember_organization
active_organization-remember_organization me id held h =
    let (org, at, e) = found_org id me.orgs h in (org, at, rw e refl)
