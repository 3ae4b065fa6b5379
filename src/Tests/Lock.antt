-- ===== src/Tests/Lock.antt =====
-- Two tabs on the page of one Run: the first claims the lock, and the second is told.
use step_by_step.Common.{
  ℕ, ◌≡◌, ◌≢◌, refl, ap, or_else, inl, inr, Bool-cases, true, false, none, some, eqb, eq_iff, arith,
}
use step_by_step.Runs.Pane.{TakeoverLock}
use step_by_step.Runs.Lock.{
  read_lock, Browser, mount, claim, publish, deliver, tab_id_of, sees_held_elsewhere, Step, mounts,
  hears, claims, opened, Reach, here, next,
}
use step_by_step.Runs.Lock.Holder.{holder-sees_held_elsewhere}
use step_by_step.Runs.Lock.Agreement.{Spec, Step-Spec, others-sees_held_elsewhere}
use step_by_step.Runs.Lock.Delivery.{hear}

abbrev empty : Browser
empty = opened none

abbrev one_tab : Browser
one_tab = mount 0 "a" empty

abbrev two_tabs : Browser
two_tabs = mount 1 "b" one_tab

abbrev claimed : Browser
claimed = claim 0 "noon" two_tabs

abbrev the_lock : TakeoverLock
the_lock = record { tab_id = "a"; at = "noon" }

-- The second tab has had the message of the claim.
abbrev heard : Browser
heard = hear 1 1 claimed

fresh_b : (j : ℕ) → (one_tab.tabs j).session ≢ some "b"
unfolding mount tab_id_of
fresh_b j = elim (Bool-cases (eqb j 0)) [
  | inl first ↦ rw first (λ e. cc ((eq_iff "a" "b").1 (ap (λ o. or_else o "") e)))
  | inr later ↦ rw later (λ e. absurd cc)
]

mounts_b : Step one_tab two_tabs
mounts_b = mounts 1 "b" (λ e. absurd cc) fresh_b

reach : Reach empty claimed
reach =
    next (next (next here (mounts 0 "a" (λ e. absurd cc) (λ j e. absurd cc))) mounts_b)
      (claims 0 "noon")

claims_a : Step two_tabs claimed
claims_a = claims 0 "noon"

not_b : (heard.tabs 1).tab_id ≢ ""
unfolding mount claim read_lock tab_id_of publish deliver
not_b e = absurd cc

not_a : (heard.tabs 0).tab_id ≢ ""
unfolding mount claim read_lock tab_id_of publish deliver
not_a e = absurd cc

told-Reach : Reach empty heard
told-Reach = next reach (hears 1)

Step-Spec_example : Spec "a" none (some "a")
unfolding mount claim read_lock tab_id_of publish claims_a
Step-Spec_example = Step-Spec claims_a

holder-sees_held_elsewhere_example : sees_held_elsewhere (claimed.tabs 0) ≡ false
unfolding mount claim read_lock tab_id_of publish
holder-sees_held_elsewhere_example = holder-sees_held_elsewhere 0 the_lock reach refl refl

others-sees_held_elsewhere_example : sees_held_elsewhere (heard.tabs 1) ≡ true
unfolding mount claim read_lock tab_id_of publish deliver
others-sees_held_elsewhere_example =
    others-sees_held_elsewhere 0 1 the_lock told-Reach refl refl refl not_a not_b
      (λ e. absurd (omega (arith, e)))
