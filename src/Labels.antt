-- ===== src/Labels.antt =====
-- apps/web/lib/labels.ts: the words and the tones of the states that the pages show; and the tones of
-- components/primitives/attribute-badge.tsx.
use step_by_step.Common.{Bool, true, false, String}

pub data LifecycleState : Type 0 where
  queued running waiting_for_human succeeded failed cancelling : LifecycleState
  cancelled skipped missed paused : LifecycleState

pub data LifecycleTone : Type 0 where
  neutral accent wait ok bad : LifecycleTone

pub data AttributeTone : Type 0 where
  neutral accent wait ok bad human : AttributeTone

unfoldable pub lifecycle_label : LifecycleState → String
lifecycle_label LifecycleState.queued = "queued"
lifecycle_label LifecycleState.running = "running"
lifecycle_label LifecycleState.waiting_for_human = "needs you"
lifecycle_label LifecycleState.succeeded = "succeeded"
lifecycle_label LifecycleState.failed = "failed"
lifecycle_label LifecycleState.cancelling = "cancelling"
lifecycle_label LifecycleState.cancelled = "cancelled"
lifecycle_label LifecycleState.skipped = "skipped"
lifecycle_label LifecycleState.missed = "missed"
lifecycle_label LifecycleState.paused = "paused"

unfoldable pub lifecycle_tone : LifecycleState → LifecycleTone
lifecycle_tone LifecycleState.queued = LifecycleTone.neutral
lifecycle_tone LifecycleState.running = LifecycleTone.accent
lifecycle_tone LifecycleState.waiting_for_human = LifecycleTone.wait
lifecycle_tone LifecycleState.succeeded = LifecycleTone.ok
lifecycle_tone LifecycleState.failed = LifecycleTone.bad
lifecycle_tone LifecycleState.cancelling = LifecycleTone.neutral
lifecycle_tone LifecycleState.cancelled = LifecycleTone.neutral
lifecycle_tone LifecycleState.skipped = LifecycleTone.neutral
lifecycle_tone LifecycleState.missed = LifecycleTone.neutral
lifecycle_tone LifecycleState.paused = LifecycleTone.neutral

unfoldable pub is_live_state : LifecycleState → Bool
is_live_state LifecycleState.running = true
is_live_state LifecycleState.waiting_for_human = true
is_live_state _ = false

pub data ConnectionState : Type 0 where
  connected not_connected out_of_date : ConnectionState

unfoldable pub connection_label : ConnectionState → String
connection_label ConnectionState.connected = "extension connected"
connection_label ConnectionState.not_connected = "extension not connected"
connection_label ConnectionState.out_of_date = "extension out of date"
