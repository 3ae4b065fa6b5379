-- ===== src/Extension.antt =====
-- apps/web/lib/extension-protocol.ts and extension-connection.ts: the messages of the browser extension,
-- and whether its version will do. The fields of a candidate are passed on unread (`as`).
pub mod Order
use step_by_step.Common.{
  ℕ, String, ◌==◌, Bool, true, false, ◌&&◌, ◌||◌, not, List, [], ◌∷◌, map, Option, none, some,
  if◌then◌else◌, ltb, eqb, lookup, split_on, Unknown, string, array, object, items, fields,
  Dictionary,
}
use step_by_step.Labels.{ConnectionState, connected, not_connected, out_of_date}

pub data MessageType : Type 0 where
  extension_ready connect_accepted recording_pending_accepted : MessageType
  recording_token_expired recording_finished repick_candidates : MessageType

pub record ExtensionMessage : Type 0 where
  pub type : MessageType
  pub version : String
  pub session_id : Option String
  pub step_id : Option String
  pub candidates : Option (List Unknown)

-- The text that a field holds, if it holds one.
abbrev pub text_in : Option Unknown → Option String
text_in (some (string s)) = some s
text_in _ = none

abbrev pub array_in : Option Unknown → Option (List Unknown)
array_in (some (array vs)) = some (items vs)
array_in _ = none

abbrev pub text_or_empty : Option Unknown → String
text_or_empty (some (string s)) = s
text_or_empty _ = ""

unfoldable pub message_type : String → Option MessageType
message_type s =
    if s == "extension-ready"
    then some extension_ready
    else if s == "connect-accepted"
    then some connect_accepted
    else if s == "recording-pending-accepted"
    then some recording_pending_accepted
    else if s == "recording-token-expired"
    then some recording_token_expired
    else if s == "recording-finished"
    then some recording_finished
    else if s == "repick-candidates"
    then some repick_candidates
    else none

unfoldable pub session_message : MessageType → String → Option String → Option ExtensionMessage
session_message type version none = none
session_message type version (some session_id) = some (record {
  type = type;
  version = version;
  session_id = some session_id;
  step_id = none;
  candidates = none;
})

unfoldable pub repick_message :
    String → Option String → Option String → Option (List Unknown) → Option ExtensionMessage
repick_message version (some session_id) (some step_id) (some candidates) = some (record {
  type = repick_candidates;
  version = version;
  session_id = some session_id;
  step_id = some step_id;
  candidates = some candidates;
})
repick_message version _ _ _ = none

abbrev pub plain_message : MessageType → String → ExtensionMessage
plain_message type version = record {
  type = type;
  version = version;
  session_id = none;
  step_id = none;
  candidates = none;
}

-- A message by its type: what else it must hold.
unfoldable pub typed_message : MessageType → Dictionary Unknown → Option ExtensionMessage
unfolding session_message repick_message lookup
typed_message type message =
    let version = text_or_empty (lookup "version" message) in
    let session_id = text_in (lookup "sessionId" message) in
    elim type [
      | extension_ready ↦ some (plain_message extension_ready version)
      | connect_accepted ↦ some (plain_message connect_accepted version)
      | recording_pending_accepted ↦ session_message recording_pending_accepted version session_id
      | recording_token_expired ↦ session_message recording_token_expired version session_id
      | recording_finished ↦ session_message recording_finished version session_id
      | repick_candidates ↦
          repick_message version session_id (text_in (lookup "stepId" message))
            (array_in (lookup "candidates" message))
    ]

abbrev pub is_channel : Option Unknown → Bool
is_channel (some (string s)) = s == "step-by-step"
is_channel _ = false

abbrev pub named_type : Option Unknown → Option MessageType
unfolding message_type
named_type (some (string s)) = message_type s
named_type _ = none

-- An array is an object without these fields.
unfoldable pub read_extension_message : Unknown → Option ExtensionMessage
unfolding message_type typed_message lookup
read_extension_message (object data_fields) =
    let message = fields data_fields in
    if not (is_channel (lookup "channel" message))
    then none
    else elim (named_type (lookup "type" message)) [
      | none ↦ none
      | some type ↦ typed_message type message
    ]
read_extension_message _ = none

-- `left !== right`, where a part that is no number (NaN) differs from every number, itself too, and
-- is not greater than any.
unfoldable pub differs : Option ℕ → Option ℕ → Bool
differs (some left) (some right) = not (eqb left right)
differs _ _ = true

unfoldable pub is_greater : Option ℕ → Option ℕ → Bool
is_greater (some left) (some right) = ltb right left
is_greater _ _ = false

-- The loop over the parts; one that is missing counts as 0.
unfoldable pub parts_at_least : List (Option ℕ) → List (Option ℕ) → Bool
unfolding differs is_greater
parts_at_least [] [] = true
parts_at_least (left ∷ actual) [] =
    let rest = parts_at_least actual [] in
    if differs left (some 0) then is_greater left (some 0) else rest
parts_at_least [] (right ∷ required) =
    let rest = parts_at_least [] required in
    if differs (some 0) right then is_greater (some 0) right else rest
parts_at_least (left ∷ actual) (right ∷ required) =
    let rest = parts_at_least actual required in
    if differs left right then is_greater left right else rest

-- `Number` on one part is the parameter `read_number`, where NaN is `none`.
module _ (read_number : String → Option ℕ) where
  unfoldable pub version_at_least : String → String → Bool
  unfolding parts_at_least split_on
  version_at_least version minimum =
      parts_at_least (map read_number (split_on b'.' version))
        (map read_number (split_on b'.' minimum))

  unfoldable pub connection_state : Option String → String → ConnectionState
  unfolding version_at_least
  connection_state none minimum_supported = not_connected
  connection_state (some version) minimum_supported =
      if version_at_least version minimum_supported then connected else out_of_date
