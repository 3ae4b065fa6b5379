-- ===== src/Messages.antt =====
-- apps/web/app/(shell)/messages.ts, workflows/messages.ts and workflows/[id]/editor/messages.ts: the
-- sentences for refused requests.
use Prim.Native.String.{◌++◌ as ◌<>◌}
use step_by_step.Common.{
  String, ◌==◌, [], ◌∷◌, Option, none, some, if◌then◌else◌, or_else, Dictionary, lookup, Unknown,
  string, object, fields,
}
use step_by_step.Organizations.{Role, owner, admin, member, OfferedMembership}

-- The text of one field of what may be an object.
unfoldable pub field_of : String → Unknown → Option String
unfolding lookup
field_of name (object said) = elim (lookup name (fields said)) [
  | some (string s) ↦ some s
  | _ ↦ none
]
field_of name _ = none

-- The sentence of a code that is known.
unfoldable pub sentence_of_code : Dictionary String → Option String → Option String
unfolding lookup
sentence_of_code refusals none = none
sentence_of_code refusals (some code) = lookup code refusals

abbrev pub workflow_refusals : Dictionary String
workflow_refusals =
    ("workflow_not_found", "That Workflow is gone. Somebody deleted it, or it was never here.")
    ∷ ("no_published_version", "Publish a Version before this Workflow can run.")
    ∷ ("missing_secret", "A Secret this Workflow needs is missing.")
    ∷ ("bad_cursor", "That page is no longer where it was. Reload the list.")
    ∷ ("not_a_member", "You are no longer a member of that Organization.")
    ∷ (
      "run_active",
      "A Run of this Workflow is still going. Wait for it to finish, or cancel it, then try again.",
    )
    ∷ []

abbrev pub workflow_unknown_refusal : String
workflow_unknown_refusal = "Something went wrong. Try again in a moment."

unfoldable pub refusal_message : Unknown → String
unfolding field_of sentence_of_code
refusal_message error =
    or_else (sentence_of_code workflow_refusals (field_of "code" error)) workflow_unknown_refusal

abbrev pub save_refusals : Dictionary String
save_refusals =
    ("duplicate_step_id", "Two Steps carry the same id, so the Draft was not saved.")
    ∷ (
      "undeclared_variable",
      "A value uses a Variable this Workflow does not declare, so the Draft was not saved.",
    )
    ∷ ("duplicate_variable_name", "Two Variables carry the same name, so the Draft was not saved.")
    ∷ (
      "unknown_step_type",
      "A Step here is of a type this instance cannot run, so the Draft was not saved.",
    )
    ∷ (
      "malformed_payload",
      "A Step here is not filled in the way its type needs, so the Draft was not saved.",
    )
    ∷ ("workflow_not_found", "That Workflow is gone. Somebody deleted it, or it was never here.")
    ∷ []

abbrev pub save_unknown_refusal : String
save_unknown_refusal = "The Draft was not saved. Try again in a moment."

abbrev pub with_detail : String → Option String → String
with_detail sentence none = sentence
with_detail sentence (some detail) = if detail == "" then sentence else sentence <> (": " <> detail)

unfoldable pub save_refusal : Unknown → String
unfolding field_of sentence_of_code
save_refusal error = elim (sentence_of_code save_refusals (field_of "code" error)) [
  | none ↦ save_unknown_refusal
  | some sentence ↦ with_detail sentence (field_of "message" error)
]

abbrev pub read_refusals : Dictionary String
read_refusals =
    ("version_not_found", "That Version is not here. The version dropdown lists the ones that are.")
    ∷ ("workflow_not_found", "That Workflow is gone. Somebody deleted it, or it was never here.")
    ∷ []

abbrev pub unknown_read_refusal : String
unknown_read_refusal = "This document could not be loaded. Try again in a moment."

unfoldable pub read_refusal : Unknown → String
unfolding field_of sentence_of_code
read_refusal error =
    or_else (sentence_of_code read_refusals (field_of "code" error)) unknown_read_refusal

abbrev pub accept_refusals : Dictionary String
accept_refusals =
    (
      "invitation_not_found",
      "That Invitation is no longer standing. It was revoked, taken, or it expired.",
    )
    ∷ ("already_member", "You are already in that Organization.")
    ∷ []

unfoldable pub accept_refusal : Unknown → String
unfolding field_of sentence_of_code
accept_refusal error =
    or_else (sentence_of_code accept_refusals (field_of "code" error))
      "Something went wrong. Try again in a moment."

abbrev pub role_text : Role → String
role_text owner = "owner"
role_text admin = "admin"
role_text member = "member"

unfoldable pub article : Role → String
article admin = "an"
article _ = "a"

unfoldable pub offer_sentence : OfferedMembership → String
unfolding article
offer_sentence offer =
    offer.org_name
    <> (" invited you to join as "
        <> (article offer.role <> (" " <> (role_text offer.role <> "."))))
